-- ===== src/Otp/Content/Publish.antt =====
-- otp/src/lib.rs: the files that `write_envelope` and `write_plaintext` publish.
use rust_encryption.Common.{
  ℕ, String, ◌+◌, ◌≤◌, ◌≡◌, refl, sym, ap, ◌∙◌, ◌++◌, arith, Bytes, length, take, drop, Bool, true,
  false, some, ok, Result, bytes_eq→eq, bytes_eq_refl, not_false→true, not_ne→eq, fail_if,
  length-take, length-drop,
}
use rust_encryption.Common.Xor.{xor_zip}
use rust_encryption.Otp.Error.{OtpError}
use rust_encryption.Otp.Size.{envelope_auth_domain}
use rust_encryption.Otp.Chunks.{amounts, sum-amounts}
use rust_encryption.Otp.Files.{OutputTransaction, commit}
use rust_encryption.Otp.Pad.{begin_pad_checksum, verify_exact_pad_checksum}
use rust_encryption.Otp.Encrypt.{Streams, read_byte, write_envelope}
use rust_encryption.Otp.Decrypt.{check_tag, write_plaintext}
use rust_encryption.Otp.World.{FilePath, Node, World, Env, M, Handle, regular, put_file}
use rust_encryption.Otp.World.Rules.{Files, Reads, Reads-tick, Reads-look, Reads-metadata}
use rust_encryption.Otp.Reading.{
  Reads-vacant, Reads-encrypt_loop, Reads-decrypt_file_region, Reads-read_byte, Reads-check_tag,
  Reads-sync_transaction, Reads-sync_parent,
}
use rust_encryption.Otp.World.Passed.{
  by_reading, by_knowing, by_value, by_checking, by_read_exact, by_seek, put-passed, pure-passed,
  metadata-passed, lift-passed, node_or,
}
use rust_encryption.Otp.Content.{
  part, streamed, encrypt_loop-part, decrypt_file_region-part, by_write_temp,
}

-- The file that `commit` makes.
abbrev pub published : Bytes → Node
published bytes = record { kind = regular; mode = 384; bytes = bytes }

pub put_file-same :
    (path : FilePath) (node : Node) (files : Files) → put_file path node files path ≡ some node
put_file-same path node files = rw (bytes_eq_refl path)

-- A test that did not fail.
pub fail_if-false : (e : OtpError) (b : Bool) {u : Unit {0}} → fail_if b e ≡ ok u → b ≡ false
fail_if-false e true h = cc
fail_if-false e false h = refl

pub Reads-end :
    {A : Type 0} {m : M A} {w w1 : World} {a : A} → Reads m → m w ≡ (ok a, w1) → w1.files ≡ w.files
Reads-end {w} reads h = sym (ap (λ (r : Result OtpError _ × World). r.1.files) h) ∙ reads.files_eq w

pub node_eq : (a b : Node) → some a ≡ some b → a ≡ b
node_eq a b h = ap (node_or a) h

-- No byte at a place: the text ends there.
no_rest :
    (n : ℕ) (text extra : Bytes) → extra ≡ part (0 + n) 1 text → length extra ≡ 0 → length text ≤ n
no_rest n text extra read none_left =
    omega (arith, ap length read, length-take 1 (drop (0 + n) text), length-drop (0 + n) text)

-- The streams after `n` bytes that are encrypted.
abbrev encrypted : ℕ → Streams → Node → Node → Streams
encrypted n s text pad =
    streamed n (xor_zip (part s.input.pos n text.bytes) (part s.pad.pos n pad.bytes))
      (xor_zip (part s.input.pos n text.bytes) (part s.pad.pos n pad.bytes))
      (part s.pad.pos n pad.bytes) s

-- The same of bytes that are decrypted.
abbrev decrypted : ℕ → Streams → Node → Node → Streams
decrypted n s text pad =
    streamed n (xor_zip (part s.input.pos n text.bytes) (part s.pad.pos n pad.bytes))
      (part s.input.pos n text.bytes) (part s.pad.pos n pad.bytes) s

module _ (env : Env) where
  pub check_tag-passed :
      (key mac : Bytes) (file : Handle) (w : World) (base : Files) (node : Node) {u : Unit {0}}
      {w1 : World}
      → w.files ≡ base
      → base file.node ≡ some node
      → check_tag env key mac file w ≡ (ok u, w1)
      → part file.pos 32 node.bytes ≡ env.hmac key mac
  unfolding check_tag
  check_tag-passed key mac file w base node same there h =
      by_read_exact env _ _ _ _ _ _ node same there h λ w2 _ _ h.
        bytes_eq→eq (part file.pos 32 node.bytes) (env.hmac key mac)
          (not_false→true _ (fail_if-false _ _ (lift-passed _ w2 h).0))

  pub commit-published :
      (t : OutputTransaction) (w : World) {u : Unit {0}} {w1 : World}
      → commit env t w ≡ (ok u, w1)
      → w1.files t.destination ≡ some (published t.bytes)
  unfolding commit
  commit-published t w h = by_reading (Reads-tick env _) refl h λ _ w2 _ same h.
      by_reading (Reads-look _) same h λ there w3 _ same h.
        by_reading (Reads-vacant _ there) same h λ _ w4 _ same h.
          let synced = put-passed t.destination _ _ w4 h in
          ap (λ (fs : Files). fs t.destination) (Reads-end (Reads-sync_parent env _) synced)
          ∙ put_file-same t.destination (published t.bytes) w4.files

  checksum-passed :
      (digest expected : Bytes) {u : Unit {0}}
      → verify_exact_pad_checksum env digest expected ≡ ok u
      → env.sha256 digest ≡ expected
  unfolding verify_exact_pad_checksum
  checksum-passed digest expected h =
      bytes_eq→eq (env.sha256 digest) expected (not_false→true _ (fail_if-false _ _ h))

  -- Nothing is left to read.
  read_byte-end :
      (action : String) (file : Handle) (w : World) (base : Files) (node : Node) (got : Bytes)
      {w1 : World}
      → w.files ≡ base
      → base file.node ≡ some node
      → read_byte env action file w ≡ (ok got, w1)
      → got ≡ part file.pos 1 node.bytes
  unfolding read_byte
  read_byte-end action file w base node got same there h =
      by_reading (Reads-metadata env _ _) same h λ n w2 ran _ h.
        sym (pure-passed _ w2 h).0
        ∙ ap (λ (n : Node). part file.pos 1 n.bytes)
            (node_eq n node (
              sym (metadata-passed env action file w ran)
              ∙ (ap (λ (fs : Files). fs file.node) same ∙ there)))

  -- Where the rest of an encryption succeeds, the output is the header, the xor of the whole
  -- plaintext with the pad material, and the MAC of both under the key of the pad.
  pub write_envelope-published :
      (input pad : Handle) (t : OutputTransaction)
      (header_bytes key pad_header_bytes expected : Bytes) (capacity : ℕ) (w w1 : World)
      (base : Files) (text pad_node : Node)
      → w.files ≡ base
      → base input.node ≡ some text
      → base pad.node ≡ some pad_node
      → write_envelope env input pad t header_bytes key pad_header_bytes expected capacity w
        ≡ (ok tt, w1)
      → let k = part 112 capacity pad_node.bytes in
        let c = xor_zip (take capacity text.bytes) k in
        (w1.files t.destination
          ≡ some (
              published (
                t.bytes
                ++ header_bytes
                ++ c
                ++ env.hmac key (envelope_auth_domain ++ header_bytes ++ c))))
        × (length text.bytes ≤ capacity)
        × (env.sha256 (begin_pad_checksum pad_header_bytes key ++ k) ≡ expected)
  unfolding write_envelope
  write_envelope-published input pad t header_bytes key pad_header_bytes expected capacity w w1 base
        text pad_node same ht hp h =
      let k = part 112 capacity pad_node.bytes in
      let c = xor_zip (take capacity text.bytes) k in
      let s0 : Streams = record {
        input = record input { pos = 0 };
        pad = record pad { pos = 112 };
        output = record t { bytes = t.bytes ++ header_bytes };
        mac = envelope_auth_domain ++ header_bytes;
        digest = begin_pad_checksum pad_header_bytes key;
      } in
      by_seek env _ _ _ _ _ same h λ w2 same h. by_seek env _ _ _ _ _ same h λ w3 same h.
        by_write_temp env _ _ _ _ _ same h λ w4 same h.
          by_knowing _ w4 (streamed capacity c c k s0) (Reads-encrypt_loop env _ _)
            (λ s w5 ran.
              encrypt_loop-part env (amounts capacity) s0 w4 base text pad_node s w5 same ht hp ran
              ∙ ap (λ n. encrypted n s0 text pad_node) (sum-amounts capacity))
            same h
            λ w5 same5 h. by_reading (Reads-read_byte env _ _) same5 h λ extra w6 ran same' h.
              by_checking _ _ h λ all h. by_value _ h λ _ intact h.
                by_write_temp env _ _ _ _ _ same' h λ w7 same h.
                  by_reading (Reads-sync_transaction env) same h λ _ w8 _ same h. (
                    commit-published _ w8 h,
                    no_rest capacity text.bytes extra
                        (read_byte-end _ (record input { pos = 0 + capacity }) w5 base text extra
                          same5 ht ran)
                        (not_ne→eq (length extra) 0 all),
                    checksum-passed _ expected intact,
                  )

  -- Where the rest of a decryption succeeds, the output is the xor of the ciphertext with the pad
  -- material, and the tag behind the ciphertext is its MAC under the key of the pad.
  pub write_plaintext-published :
      (encrypted_file pad : Handle) (t : OutputTransaction)
      (header_bytes key pad_header_bytes expected : Bytes) (len : ℕ) (w w1 : World) (base : Files)
      (envelope pad_node : Node)
      → w.files ≡ base
      → base encrypted_file.node ≡ some envelope
      → base pad.node ≡ some pad_node
      → write_plaintext env encrypted_file pad t header_bytes key pad_header_bytes expected len w
        ≡ (ok tt, w1)
      → let k = part 112 len pad_node.bytes in
        let c = part 64 len envelope.bytes in
        (w1.files t.destination ≡ some (published (t.bytes ++ xor_zip c k)))
        × (part (64 + len) 32 envelope.bytes
            ≡ env.hmac key (envelope_auth_domain ++ header_bytes ++ c))
        × (env.sha256 (begin_pad_checksum pad_header_bytes key ++ k) ≡ expected)
  unfolding write_plaintext
  write_plaintext-published encrypted_file pad t header_bytes key pad_header_bytes expected len w w1
        base envelope pad_node same ht hp h =
      let k = part 112 len pad_node.bytes in
      let c = part 64 len envelope.bytes in
      let s0 : Streams = record {
        input = record encrypted_file { pos = 64 };
        pad = record pad { pos = 112 };
        output = t;
        mac = envelope_auth_domain ++ header_bytes;
        digest = begin_pad_checksum pad_header_bytes key;
      } in
      by_seek env _ _ _ _ _ same h λ w2 same h. by_seek env _ _ _ _ _ same h λ w3 same h.
        by_knowing _ w3 (streamed len (xor_zip c k) c k s0) (Reads-decrypt_file_region env _ _)
          (λ s w4 ran.
            decrypt_file_region-part env (amounts len) s0 w3 base envelope pad_node s w4 same ht hp
              ran
            ∙ ap (λ n. decrypted n s0 envelope pad_node) (sum-amounts len))
          same h
          λ w4 same h. by_reading (Reads-check_tag env _ _ _) same h λ _ w5 ran same' h.
            by_value _ h λ _ intact h.
              by_reading (Reads-sync_transaction env) same' h λ _ w6 _ same' h. (
                commit-published _ w6 h,
                check_tag-passed key _ (record encrypted_file { pos = 64 + len }) w4 base envelope
                    same ht ran,
                checksum-passed _ expected intact,
              )
