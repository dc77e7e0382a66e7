-- ===== src/Otp/Sample.antt =====
-- Files and an environment for the examples: two pads of three bytes, and a plaintext.
use rust_encryption.Common.{
  ℕ, true, false, Option, none, some, ◌++◌, [], ◌∷◌, replicate, bytes_eq, if◌then◌else◌,
}
use rust_encryption.Common.Text.{codes}
use rust_encryption.Otp.Role.{PadRole, sender, receiver}
use rust_encryption.Otp.PadHeader.{PadHeader, encode_pad_header}
use rust_encryption.Otp.Content.Encryption.{envelope_of}
use rust_encryption.Otp.World.{FilePath, Node, World, Env, regular}

-- A digest and a MAC for the examples, of which the theorems use nothing.
abbrev pub sample_env : Env
sample_env = record {
  succeeds = λ n. true;
  resolve = λ path. path;
  has_file_name = λ path. true;
  fill = λ n size. some (replicate size 3);
  sha256 = λ bytes. replicate 32 7;
  hmac = λ key bytes. replicate 32 8;
  variable = λ name. none;
}

abbrev pub sample_header : ℕ → PadRole → PadHeader
sample_header n role = record { id = replicate 32 n; capacity = 3; role = role; consumed = false }

abbrev pub sample_text : Node
sample_text = record { kind = regular; mode = 420; bytes = codes "abc" }

abbrev pub sample_pad : ℕ → PadRole → Node
sample_pad n role = record {
  kind = regular;
  mode = 384;
  bytes =
      encode_pad_header (sample_header n role)
      ++ (replicate 32 9 ++ ((1 ∷ 2 ∷ 3 ∷ []) ++ replicate 32 7));
}

abbrev pub sample_envelope : ℕ → Node
sample_envelope n = record {
  kind = regular;
  mode = 420;
  bytes = envelope_of sample_env (sample_header n sender) (sample_pad n sender).bytes (codes "abc");
}

abbrev pub sample_files : FilePath → Option Node
sample_files path =
    if bytes_eq path (codes "plain")
    then some sample_text
    else if bytes_eq path (codes "pad1")
    then some (sample_pad 5 sender)
    else if bytes_eq path (codes "pad2")
    then some (sample_pad 6 sender)
    else if bytes_eq path (codes "pad3")
    then some (sample_pad 5 receiver)
    else if bytes_eq path (codes "pad4")
    then some (sample_pad 6 receiver)
    else if bytes_eq path (codes "env1")
    then some (sample_envelope 5)
    else if bytes_eq path (codes "env2")
    then some (sample_envelope 6)
    else none

abbrev pub sample_world : World
sample_world = record { files = sample_files; clock = 0 }
