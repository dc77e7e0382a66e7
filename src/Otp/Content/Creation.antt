-- ===== src/Otp/Content/Creation.antt =====
-- otp/src/lib.rs: the two pads that `create_pad_pair_with_rng` publishes.
use rust_encryption.Common.{
  ℕ, String, ◌+◌, ◌≡◌, refl, sym, ap, ◌∙◌, ◌++◌, append_assoc, append-nil, [], ◌∷◌, List, arith,
  Bytes, length, length-append, false, Option, some, none, ok, err, Result, ok-injective, bytes_eq,
  bytes_eq→eq, bytes_eq_refl, Bool-cases, inl, inr,
}
use rust_encryption.Otp.Error.{OtpError}
use rust_encryption.Otp.Role.{PadRole, sender, receiver}
use rust_encryption.Otp.Size.{pad_checksum_domain}
use rust_encryption.Otp.Chunks.{sum, amounts, sum-amounts}
use rust_encryption.Otp.PadHeader.{PadHeader, encode_pad_header}
use rust_encryption.Otp.Files.{OutputTransaction, commit}
use rust_encryption.Otp.Create.{
  Pair, as_partial, in_partial, write_both, pad_loop, create_pad_pair_with_rng,
}
use rust_encryption.Otp.World.{FilePath, World, Env, filled, random_bytes, same_path}
use rust_encryption.Otp.World.Rules.{Files, >>=-passed, Reads-tick, Reads-look, Reads-random_bytes}
use rust_encryption.Otp.World.Passed.{by_reading, by_checking, by_value, put-passed, pure-passed}
use rust_encryption.Otp.Reading.{
  Reads-vacant, Reads-sync_transaction, Reads-sync_parent, Reads-write_both, Reads-pad_loop,
}
use rust_encryption.Otp.Content.{by_write_temp}
use rust_encryption.Otp.Content.Publish.{published, commit-published, Reads-end}
use rust_encryption.Otp.Content.Marking.{put_file-other}
use rust_encryption.Otp.Content.Opening.{by_new_transaction}

-- A pad file: the header, the key with the pad material, and the digest of both.
abbrev pub pad_of : Env → PadHeader → Bytes → Bytes
pad_of env header material =
    encode_pad_header header
    ++ material
    ++ env.sha256 (pad_checksum_domain ++ (encode_pad_header header ++ material))

-- A random source that fills what it is asked to fill.
abbrev pub Fills : Env → Type 0
Fills env = (n size : ℕ) (bytes : Bytes) → env.fill n size ≡ some bytes → length bytes ≡ size

-- The pair with more bytes in both files.
abbrev pub extended : Bytes → Pair → Pair
extended bytes pair = record {
  sender = record pair.sender { bytes = pair.sender.bytes ++ bytes };
  receiver = record pair.receiver { bytes = pair.receiver.bytes ++ bytes };
  material = pair.material ++ bytes;
}

extended-extended :
    (a b : Bytes) (pair : Pair) → extended b (extended a pair) ≡ extended (a ++ b) pair
extended-extended a b pair = rw (
  append_assoc pair.sender.bytes a b,
  append_assoc pair.receiver.bytes a b,
  append_assoc pair.material a b,
)

extended-none : (pair : Pair) → pair ≡ extended [] pair
extended-none pair =
    rw (append-nil pair.sender.bytes, append-nil pair.receiver.bytes, append-nil pair.material)

abbrev fresh : Bytes → ℕ → PadRole → PadHeader
fresh id capacity role = record { id = id; capacity = capacity; role = role; consumed = false }

-- The two outputs with their headers.
abbrev new_pair : FilePath → FilePath → Bytes → ℕ → Pair
new_pair sender_path receiver_path id capacity = record {
  sender = record {
    destination = sender_path;
    bytes = encode_pad_header (fresh id capacity sender);
  };
  receiver = record {
    destination = receiver_path;
    bytes = encode_pad_header (fresh id capacity receiver);
  };
  material = [];
}

-- One output with its digest.
abbrev finished : Env → PadHeader → (Pair → OutputTransaction) → Pair → OutputTransaction
finished env header output pair = record (output pair) {
  bytes =
      (output pair).bytes
      ++ env.sha256 (pad_checksum_domain ++ (encode_pad_header header ++ pair.material));
}

as_partial-ok :
    (path : FilePath) (r : Result OtpError (Unit {0}) × World) {w : World}
    → as_partial path r ≡ (ok tt, w)
    → r ≡ (ok tt, w)
as_partial-ok path (ok u, w) h = h
as_partial-ok path (err e, w) h = cc

filled-ok : (o : Option Bytes) {bytes : Bytes} → filled o ≡ ok bytes → o ≡ some bytes
filled-ok none h = cc
filled-ok (some b) h = ap some (ok-injective h)

-- Paths with different components have different bytes.
same_path-differ :
    (first second : FilePath) → same_path first second ≡ false → bytes_eq first second ≡ false
same_path-differ first second h = elim (Bool-cases (bytes_eq first second)) [
  | inl yes_same ↦
      let one = bytes_eq→eq first second yes_same in
      let again = sym (ap (λ p. same_path first p) one) ∙ bytes_eq_refl _ in cc
  | inr no_same ↦ no_same
]

module _ (env : Env) (fills : Fills env) where
  random_bytes-length :
      (size : ℕ) (w : World) {bytes : Bytes} {w1 : World}
      → random_bytes env size w ≡ (ok bytes, w1)
      → length bytes ≡ size
  unfolding random_bytes
  random_bytes-length size w h =
      fills w.clock size _
        (filled-ok (env.fill w.clock size) (ap (λ (r : Result OtpError Bytes × World). r.0) h))

  write_both-extended :
      (a b : String) (bytes : Bytes) (pair pair' : Pair) (w : World) {w1 : World}
      → write_both env a b bytes pair w ≡ (ok pair', w1)
      → pair' ≡ extended bytes pair
  unfolding write_both
  write_both-extended a b bytes pair pair' w h =
      by_write_temp env _ _ _ _ w refl h
        λ w2 same h. by_write_temp env _ _ _ _ w2 refl h λ w3 same h. sym (pure-passed _ w3 h).0

  pad_loop-extended :
      (rounds : List ℕ) (pair pair' : Pair) (w : World) {w1 : World}
      → pad_loop env rounds pair w ≡ (ok pair', w1)
      → (m : Bytes) × (length m ≡ sum rounds) × (pair' ≡ extended m pair)
  unfolding pad_loop
  pad_loop-extended [] pair pair' w h =
      ([], refl, sym (pure-passed pair w h).0 ∙ extended-none pair)
  pad_loop-extended (amount ∷ rest) pair pair' w h =
      by_reading (Reads-random_bytes env _) refl h λ bytes w2 drawn _ h.
        by_reading (Reads-write_both env _ _ _ _) refl h λ next w3 written _ h.
          let more = pad_loop-extended rest next pair' w3 h in
          (
            bytes ++ more.0,
            length-append bytes more.0 ∙ omega (arith, random_bytes-length amount w drawn, more.1),
            more.2
                ∙ (ap (extended more.0) (write_both-extended _ _ bytes pair next w2 written)
                    ∙ extended-extended bytes more.0 pair),
          )

  commit-other :
      (t : OutputTransaction) (q : FilePath) (w : World) {u : Unit {0}} {w1 : World}
      → bytes_eq t.destination q ≡ false
      → commit env t w ≡ (ok u, w1)
      → w1.files q ≡ w.files q
  unfolding commit
  commit-other t q w other h = by_reading (Reads-tick env _) refl h λ _ w2 _ same h.
      by_reading (Reads-look _) same h λ there w3 _ same h.
        by_reading (Reads-vacant _ there) same h λ _ w4 _ same h.
          let synced = put-passed t.destination _ _ w4 h in
          ap (λ (fs : Files). fs q) (Reads-end (Reads-sync_parent env _) synced)
          ∙ (put_file-other t.destination q _ w4.files other ∙ ap (λ (fs : Files). fs q) same)

  -- Where the creation of a pair succeeds, nothing was at either path before the call, and after it
  -- they lead to private files that are the pads of a sender and of a receiver with one identifier,
  -- the capacity asked for and one material: the key of 32 bytes and as many bytes as the capacity,
  -- and each ends with the digest of its own bytes. The random source is taken to fill what it is asked to fill.
  pub create_pad_pair_with_rng-pad_of :
      (capacity : ℕ) (sender_path receiver_path : FilePath) (w w' : World)
      → create_pad_pair_with_rng env capacity sender_path receiver_path w ≡ (ok tt, w')
      → (id : Bytes) × (material : Bytes) × (length id ≡ 32)
        × (length material ≡ 32 + capacity)
        × (w'.files sender_path
            ≡ some (
                published (
                  pad_of env
                    (record { id = id; capacity = capacity; role = sender; consumed = false })
                    material)))
        × (w'.files receiver_path
            ≡ some (
                published (
                  pad_of env
                    (record { id = id; capacity = capacity; role = receiver; consumed = false })
                    material)))
        × (w.files sender_path ≡ none)
        × (w.files receiver_path ≡ none)
  unfolding create_pad_pair_with_rng in_partial
  create_pad_pair_with_rng-pad_of capacity sender_path receiver_path w w' h = by_value _ h λ _ _ h.
      by_checking _ _ h λ distinct h.
        by_new_transaction env _ sender_path w refl h λ w2 no_sender same h.
          by_new_transaction env _ receiver_path w2 same h λ w3 no_receiver _ h.
            by_reading (Reads-random_bytes env _) refl h λ id w4 drawn_id _ h.
              by_checking _ _ h λ _ h. by_write_temp env _ _ _ _ w4 refl h λ w5 _ h.
                by_write_temp env _ _ _ _ w5 refl h λ w6 _ h.
                  by_reading (Reads-random_bytes env _) refl h λ key w7 drawn_key _ h.
                    by_reading (Reads-write_both env _ _ _ _) refl h λ first w8 written _ h.
                      by_reading (Reads-pad_loop env _ _) refl h λ pair w9 looped _ h.
                        by_write_temp env _ _ _ _ w9 refl h λ w10 _ h.
                          by_write_temp env _ _ _ _ w10 refl h λ w11 _ h.
                            by_reading (Reads-sync_transaction env) refl h λ _ w12 _ _ h.
                              by_reading (Reads-sync_transaction env) refl h λ _ w13 _ _ h.
                                let receiver_done = >>=-passed _ _ w13 h in
                                let sender_done = as_partial-ok receiver_path _ receiver_done.3 in
                                let more =
                                  pad_loop-extended (amounts capacity) first pair w8 looped in
                                let start = new_pair sender_path receiver_path id capacity in
                                let material = key ++ more.0 in
                                let whole : pair ≡ extended material start =
                                  more.2
                                  ∙ (ap (extended more.0)
                                        (write_both-extended _ _ key start first w7 written)
                                      ∙ extended-extended key more.0 start) in
                                let sender_out =
                                  finished env (fresh id capacity sender) (λ p. p.sender) in
                                let receiver_out =
                                  finished env (fresh id capacity receiver) (λ p. p.receiver) in
                                (
                                  id,
                                  material,
                                  random_bytes-length 32 w3 drawn_id,
                                  length-append key more.0
                                      ∙ omega (
                                        arith,
                                        random_bytes-length 32 w6 drawn_key,
                                        more.1,
                                        sum-amounts capacity,
                                      ),
                                  ap (λ p. w'.files (sender_out p).destination) (sym whole)
                                      ∙ (commit-published env (sender_out pair) receiver_done.1
                                            sender_done
                                          ∙ ap (λ p. some (published (sender_out p).bytes)) whole),
                                  commit-other (sender_out pair) receiver_path receiver_done.1
                                        (ap (λ p. bytes_eq (sender_out p).destination receiver_path)
                                            whole
                                          ∙ same_path-differ sender_path receiver_path distinct)
                                        sender_done
                                      ∙ (ap
                                            (λ p.
                                              receiver_done.1.files (receiver_out p).destination)
                                            (sym whole)
                                          ∙ (commit-published env (receiver_out pair) w13
                                                receiver_done.2
                                              ∙ ap (λ p. some (published (receiver_out p).bytes))
                                                  whole)),
                                  no_sender,
                                  no_receiver,
                                )
