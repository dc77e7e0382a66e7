-- ===== src/Otp/Commands/Safety.antt =====
-- otp/src/main.rs and otp/src/lib.rs: no run of the program forgets that a pad was used.
use rust_encryption.Common.{
  Option, none, some, List, [], ◌∷◌, Result, ok, err, ◌≡◌, ◌≢◌, sym, ap, ◌∙◌,
}
use rust_encryption.Otp.Error.{OtpError}
use rust_encryption.Otp.Role.{PadRole, sender, receiver}
use rust_encryption.Otp.PadHeader.{PadHeader}
use rust_encryption.Otp.Ledger.{ledger_path}
use rust_encryption.Otp.Encrypt.{encrypt_file_with_state}
use rust_encryption.Otp.Decrypt.{decrypt_file_with_state}
use rust_encryption.Otp.World.{FilePath, World, Env}
use rust_encryption.Otp.World.Rules.{
  there, Keeps, Grows, Reads, Reads-Grows, Grows->>=, Grows-Reads_first,
}
use rust_encryption.Otp.Reading.{reading, Reads-inspect_pad, Reads-is_reserved_in}
use rust_encryption.Otp.Growth.{
  Grows-create_pad_pair_with_rng, Grows-destroy_pad, Grows-encrypt_file_with_state,
  Grows-decrypt_file_with_state,
}
use rust_encryption.Otp.Spending.{
  header_at, Spends, encrypt_file_with_state-Spends, decrypt_file_with_state-Spends,
}
use rust_encryption.Otp.Commands.{
  Capacity, length_of, for_file, create, info, destroy, pad_command, encrypt, decrypt, Command, Cli,
  file_length, create_pad_pair, capacity_of, run_pad, run_command, run, run_all, PadCommand,
}

abbrev header_or : PadHeader → Option (Result OtpError PadHeader) → PadHeader
header_or h none = h
header_or h (some (ok header)) = header
header_or h (some (err _)) = h

header_ok :
    {a b : PadHeader}
    → ◌≡◌ {A = Option (Result OtpError PadHeader)} (some (ok a)) (some (ok b))
    → a ≡ b
header_ok {a} h = ap (header_or a) h

module _ (env : Env) where
  Reads-capacity_of : (source : Capacity) → Reads (capacity_of env source)
  unfolding file_length
  Reads-capacity_of (length_of n) = search reading
  Reads-capacity_of (for_file path) = search reading

  Grows-run_pad :
      (state_dir : Option FilePath) (command : PadCommand) → Grows (run_pad env state_dir command)
  unfolding run_pad create_pad_pair
  Grows-run_pad state_dir (create source s r) =
      search
        (
          reading, Grows-Reads_first, Grows->>=, Reads-Grows, Reads-capacity_of,
          Grows-create_pad_pair_with_rng,
        )
        depth 20
  Grows-run_pad state_dir (info pad) =
      search (reading, Reads-Grows, Reads-inspect_pad, Reads-is_reserved_in) depth 20
  Grows-run_pad state_dir (destroy pad yes_given) =
      search (reading, Grows-Reads_first, Grows->>=, Reads-Grows, Grows-destroy_pad) depth 20

  Grows-run_command :
      (state_dir : Option FilePath) (command : Command) → Grows (run_command env state_dir command)
  Grows-run_command state_dir (pad_command command) = Grows-run_pad state_dir command
  Grows-run_command state_dir (encrypt arguments) =
      search (reading, Grows-Reads_first, Grows->>=, Reads-Grows, Grows-encrypt_file_with_state)
        depth 20
  Grows-run_command state_dir (decrypt arguments) =
      search (reading, Grows-Reads_first, Grows->>=, Reads-Grows, Grows-decrypt_file_with_state)
        depth 20

  -- Every file that is there before some calls of the program is there after them, whatever the
  -- calls are and however each ends, in success or in an error at any operation.
  pub run_all-Keeps : (calls : List Cli) (w : World) → Keeps w.files (run_all env calls w).files
  unfolding run_all run
  run_all-Keeps [] w = λ path h. h
  run_all-Keeps (cli ∷ rest) w = λ path h.
      run_all-Keeps rest (run env cli w).1 path
        ((Grows-run_command cli.state_dir cli.command).keeps w path h)

  -- The entry of the ledger that the first use has made stops the second one.
  never_again :
      (pad1 pad2 dir : FilePath) (role : PadRole) (calls : List Cli) (w w1 w2 : World)
      (first second : PadHeader)
      → header_at env w pad1 ≡ some (ok first)
      → header_at env (run_all env calls w1) pad2 ≡ some (ok second)
      → Spends env pad1 dir role w w1
      → Spends env pad2 dir role (run_all env calls w1) w2
      → first.id ≢ second.id
  never_again pad1 pad2 dir role calls w w1 w2 first second h k s t same =
      let later = run_all-Keeps calls w1 (ledger_path dir s.header.id role) s.after in
      let ids : s.header.id ≡ t.header.id =
        ap (λ (h : PadHeader). h.id) (header_ok (sym s.header_eq ∙ h))
        ∙ (same ∙ ap (λ (h : PadHeader). h.id) (header_ok (sym k ∙ t.header_eq))) in
      let before =
        ap (λ id. there ((run_all env calls w1).files (ledger_path dir id role))) ids ∙ t.before in
      cc

  -- Two encryptions that succeed one after the other, with any calls of the program between them
  -- and the same state directory, are with pads of different identifiers.
  pub encrypt_file_with_state_once :
      (input1 pad1 output1 input2 pad2 output2 dir : FilePath) (calls : List Cli) (w w1 w2 : World)
      (first second : PadHeader)
      → header_at env w pad1 ≡ some (ok first)
      → header_at env (run_all env calls w1) pad2 ≡ some (ok second)
      → encrypt_file_with_state env input1 pad1 output1 dir w ≡ (ok tt, w1)
      → encrypt_file_with_state env input2 pad2 output2 dir (run_all env calls w1) ≡ (ok tt, w2)
      → first.id ≢ second.id
  encrypt_file_with_state_once input1 pad1 output1 input2 pad2 output2 dir calls w w1 w2 first
        second h k e1 e2 =
      never_again pad1 pad2 dir sender calls w w1 w2 first second h k
        (encrypt_file_with_state-Spends env input1 pad1 output1 dir w w1 e1)
        (encrypt_file_with_state-Spends env input2 pad2 output2 dir (run_all env calls w1) w2 e2)

  -- Two decryptions that succeed one after the other, with any calls of the program between them
  -- and the same state directory, are with pads of different identifiers.
  pub decrypt_file_with_state_once :
      (input1 pad1 output1 input2 pad2 output2 dir : FilePath) (calls : List Cli) (w w1 w2 : World)
      (first second : PadHeader)
      → header_at env w pad1 ≡ some (ok first)
      → header_at env (run_all env calls w1) pad2 ≡ some (ok second)
      → decrypt_file_with_state env input1 pad1 output1 dir w ≡ (ok tt, w1)
      → decrypt_file_with_state env input2 pad2 output2 dir (run_all env calls w1) ≡ (ok tt, w2)
      → first.id ≢ second.id
  decrypt_file_with_state_once input1 pad1 output1 input2 pad2 output2 dir calls w w1 w2 first
        second h k e1 e2 =
      never_again pad1 pad2 dir receiver calls w w1 w2 first second h k
        (decrypt_file_with_state-Spends env input1 pad1 output1 dir w w1 e1)
        (decrypt_file_with_state-Spends env input2 pad2 output2 dir (run_all env calls w1) w2 e2)
