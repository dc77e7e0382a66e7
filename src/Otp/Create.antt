-- ===== src/Otp/Create.antt =====
-- otp/src/lib.rs: `create_pad_pair_with_rng`.
use rust_encryption.Common.{
  ℕ, false, String, ◌++◌, List, [], ◌∷◌, Bytes, all_zero, Result, ok, err, fail_if,
}
use rust_encryption.Otp.Error.{OtpError, same_file, random, partial_pad_pair}
use rust_encryption.Otp.Role.{sender, receiver}
use rust_encryption.Otp.Size.{checked_pad_file_len, pad_checksum_domain}
use rust_encryption.Otp.Chunks.{amounts}
use rust_encryption.Otp.PadHeader.{encode_pad_header}
use rust_encryption.Otp.Files.{
  OutputTransaction, new_transaction, write_temp, sync_transaction, commit,
}
use rust_encryption.Otp.World.{
  FilePath, World, Env, M, ◌>>=◌, ◌>>◌, lift, pure, random_bytes, same_path,
}

-- The two outputs, and the bytes that their two digests have in common.
pub record Pair : Type 0 where
  pub sender : OutputTransaction
  pub receiver : OutputTransaction
  pub material : Bytes

-- `map_err` at the last commit.
abbrev pub as_partial :
    FilePath → Result OtpError (Unit {0}) × World → Result OtpError (Unit {0}) × World
as_partial receiver_path (ok value, w) = (ok value, w)
as_partial receiver_path (err failure, w) = (err (partial_pad_pair receiver_path failure), w)

unfoldable pub in_partial : FilePath → M (Unit {0}) → M (Unit {0})
in_partial receiver_path m w = as_partial receiver_path (m w)

module _ (env : Env) where
  -- One piece of random bytes, to both outputs and both digests.
  unfoldable pub write_both : String → String → Bytes → Pair → M Pair
  write_both sender_action receiver_action bytes pair = do
    s ← write_temp env sender_action bytes pair.sender
    r ← write_temp env receiver_action bytes pair.receiver
    pure (record { sender = s; receiver = r; material = pair.material ++ bytes })

  unfoldable pub pad_loop : List ℕ → Pair → M Pair
  pad_loop [] pair = pure pair
  pad_loop (amount ∷ rest) pair = do
    bytes ← random_bytes env amount
    pair ← write_both "writing sender pad" "writing receiver pad" bytes pair
    pad_loop rest pair

  unfoldable pub create_pad_pair_with_rng : ℕ → FilePath → FilePath → M (Unit {0})
  create_pad_pair_with_rng capacity sender_path receiver_path = do
    _ ← lift (checked_pad_file_len capacity)
    lift (fail_if (same_path sender_path receiver_path) (same_file "sender and receiver pads"))
    s ← new_transaction env sender_path
    r ← new_transaction env receiver_path
    id ← random_bytes env 32
    lift (fail_if (all_zero id) (random "the random source returned an all-zero pad identifier"))
    let sender_header =
        encode_pad_header (record { id = id; capacity = capacity; role = sender; consumed = false })
    let receiver_header =
        encode_pad_header
          (record { id = id; capacity = capacity; role = receiver; consumed = false })
    s ← write_temp env "writing sender pad header" sender_header s
    r ← write_temp env "writing receiver pad header" receiver_header r
    authentication_key ← random_bytes env 32
    pair ←
        write_both "writing authentication key" "writing authentication key" authentication_key
          (record { sender = s; receiver = r; material = [] })
    pair ← pad_loop (amounts capacity) pair
    s ←
        write_temp env "writing sender pad checksum"
          (env.sha256 (pad_checksum_domain ++ (sender_header ++ pair.material))) pair.sender
    r ←
        write_temp env "writing receiver pad checksum"
          (env.sha256 (pad_checksum_domain ++ (receiver_header ++ pair.material))) pair.receiver
    sync_transaction env
    sync_transaction env
    commit env r
    in_partial receiver_path (commit env s)
