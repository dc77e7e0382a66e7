-- ===== src/Otp/Content/Marked.antt =====
-- otp/src/lib.rs: the pad of an encryption that has succeeded says that it is consumed.
use rust_encryption.Common.{
  ℕ, zero, suc, ◌<◌, ◌≤◌, ◌≡◌, refl, sym, ap, ◌∙◌, ◌++◌, [], ◌∷◌, arith, Bytes, IsBytes, All-take,
  length, length-take, take, drop, take-append, take-append-drop, true, some, ok,
}
use rust_encryption.Common.Slices.{copy_at}
use rust_encryption.Otp.Error.{output_exists}
use rust_encryption.Otp.Role.{sender}
use rust_encryption.Otp.PadHeader.{PadHeader, encode_pad_header, parse_pad_header}
use rust_encryption.Otp.PadHeader.Codec.{
  IsHeader, encode-parse_pad_header, parse-encode_pad_header, copy_at-encode_pad_header,
  length-encode_pad_header,
}
use rust_encryption.Otp.Files.{OutputTransaction, commit}
use rust_encryption.Otp.Encrypt.{write_envelope, encrypt_file_with_state}
use rust_encryption.Otp.World.{FilePath, Node, World, Env, Handle, put_file}
use rust_encryption.Otp.World.Rules.{
  Files, there, >>=-passed, Reads-tick, Reads-metadata, Reads-seek,
}
use rust_encryption.Otp.World.Passed.{by_reading, by_checking, by_value, look-passed}
use rust_encryption.Otp.Reading.{
  Reads-open_regular, Reads-open_pad, Reads-ensure_distinct, Reads-new_transaction,
  Reads-read_pad_header, Reads-validate_pad, Reads-read_authentication_key, Reads-write_temp,
  Reads-encrypt_loop, Reads-read_byte, Reads-sync_transaction, Reads-sync_parent,
}
use rust_encryption.Otp.Kept.{vacant-passed}
use rust_encryption.Otp.Spending.{header_at, parsed}
use rust_encryption.Otp.Content.Publish.{put_file-same, Reads-end}
use rust_encryption.Otp.Content.Marking.{
  is_regular_at, differs, put-keeps, reserve_usage-keeps, mark_pad_consumed-marks,
}
use rust_encryption.Otp.Content.Opening.{
  open_pad-opens, read_pad_header-reads, validate_pad-node, read_authentication_key-reads,
}

-- Writing one byte inside the first part of a text.
poke :
    (n v : ℕ) (xs ys : Bytes)
    → n < length xs
    → take n (xs ++ ys) ++ (v ∷ drop (suc n) (xs ++ ys))
      ≡ (take n xs ++ (v ∷ drop (suc n) xs)) ++ ys
poke n v [] ys h = absurd (omega arith)
poke zero v (x ∷ xs) ys h = refl
poke (suc n) v (x ∷ xs) ys h = ap (λ zs. x ∷ zs) (poke n v xs ys (omega (arith, h)))

-- The header of a pad file that has been marked.
marked_header :
    (bytes : Bytes) (header : PadHeader)
    → IsBytes bytes
    → 80 ≤ length bytes
    → parse_pad_header (take 80 bytes) ≡ ok header
    → parse_pad_header (take 80 (copy_at 17 (1 ∷ []) bytes))
      ≡ ok (record header { consumed = true })
marked_header bytes header good size parses =
    let decoded =
      encode-parse_pad_header (take 80 bytes) header (All-take _ 80 bytes good)
        (omega (arith, size, length-take 80 bytes)) parses in
    let v = decoded.0 in
    let after : PadHeader = record header { consumed = true } in
    let v' : IsHeader after = record {
      id_size = v.id_size;
      id_set = v.id_set;
      capacity_fits = v.capacity_fits;
    } in
    let rest = drop 80 bytes in
    let whole : encode_pad_header header ++ rest ≡ bytes =
      ap (λ front. front ++ rest) decoded.1 ∙ take-append-drop 80 bytes in
    let written : copy_at 17 (1 ∷ []) bytes ≡ encode_pad_header after ++ rest =
      ap (copy_at 17 (1 ∷ [])) (sym whole)
      ∙ (poke 17 1 (encode_pad_header header) rest
            (omega (arith, length-encode_pad_header header v))
          ∙ ap (λ front. front ++ rest) (copy_at-encode_pad_header header true v)) in
    ap (λ b. parse_pad_header (take 80 b)) written
    ∙ (ap parse_pad_header
          (take-append 80 (encode_pad_header after) rest (length-encode_pad_header after v'))
        ∙ parse-encode_pad_header after v')

module _ (env : Env) where
  -- What is there stays as it is when an output is published.
  commit-keeps :
      (t : OutputTransaction) (q : FilePath) (node : Node) (w : World) {u : Unit {0}} {w1 : World}
      → w.files q ≡ some node
      → commit env t w ≡ (ok u, w1)
      → w1.files q ≡ some node
  unfolding commit
  commit-keeps t q node w h ran = by_reading (Reads-tick env _) refl ran λ _ w2 _ same ran.
      let looked = look-passed t.destination _ w2 ran in
      let free = vacant-passed (output_exists t.destination) (w2.files t.destination) _ w2 looked in
      let still = ap (λ (fs : Files). fs q) same ∙ h in
      let other =
        differs t.destination q
          (λ e. let found = ap there (ap w2.files e ∙ still) in let vacant_there = free.0 in cc) in
      let written = >>=-passed _ _ w2 free.1 in
      ap (λ (fs : Files). fs q) (Reads-end (Reads-sync_parent env _) written.3)
      ∙ put-keeps t.destination q _ node w2 other still written.2

  write_envelope-keeps :
      (input pad : Handle) (t : OutputTransaction)
      (header_bytes key pad_header_bytes expected : Bytes) (capacity : ℕ) (q : FilePath)
      (node : Node) (w : World) {u : Unit {0}} {w1 : World}
      → w.files q ≡ some node
      → write_envelope env input pad t header_bytes key pad_header_bytes expected capacity w
        ≡ (ok u, w1)
      → w1.files q ≡ some node
  unfolding write_envelope
  write_envelope-keeps input pad t header_bytes key pad_header_bytes expected capacity q node w h
        ran =
      by_reading (Reads-seek env _ _ _) refl ran λ _ w2 _ same ran.
        by_reading (Reads-seek env _ _ _) same ran λ _ w3 _ same ran.
          by_reading (Reads-write_temp env _ _ _) same ran λ _ w4 _ same ran.
            by_reading (Reads-encrypt_loop env _ _) same ran λ s w5 _ same ran.
              by_reading (Reads-read_byte env _ _) same ran λ _ w6 _ same ran.
                by_checking _ _ ran λ _ ran. by_value _ ran λ _ _ ran.
                  by_reading (Reads-write_temp env _ _ _) same ran λ _ w7 _ same ran.
                    by_reading (Reads-sync_transaction env) same ran λ _ w8 _ same ran.
                      commit-keeps _ q node w8 (ap (λ (fs : Files). fs q) same ∙ h) ran

  -- Where an encryption succeeds with a pad file of bytes, the header of the pad at its path is
  -- afterwards what it was, but consumed.
  pub encrypt_file_with_state_consumed :
      (input_path pad_path output_path dir : FilePath) (w w' : World) (pad : Node)
      → IsBytes pad.bytes
      → w.files (env.resolve pad_path) ≡ some pad
      → encrypt_file_with_state env input_path pad_path output_path dir w ≡ (ok tt, w')
      → (header : PadHeader) × (header_at env w pad_path ≡ some (ok header))
        × (header_at env w' pad_path ≡ some (ok (record header { consumed = true })))
  unfolding encrypt_file_with_state
  encrypt_file_with_state_consumed input_path pad_path output_path dir w w' pad good hp h =
      by_reading (Reads-ensure_distinct env _ _ _) refl h λ _ w1 _ same h.
        by_reading (Reads-open_regular env _ _) same h λ input w2 _ same h.
          by_reading (Reads-metadata env _ _) same h λ node w3 _ same h.
            by_reading (Reads-open_pad env _) same h λ file w4 opened same' h.
              let p = open_pad-opens env pad_path w3 w.files same opened in
              by_reading (Reads-tick env _) same' h λ _ w5 _ locked h.
                by_reading (Reads-read_pad_header env _) locked h λ got w6 read same h.
                  let header =
                    read_pad_header-reads env file w5 w.files pad got locked (ap w.files p.1 ∙ hp)
                      read in
                  by_reading (Reads-validate_pad env _ _ _) same h λ checked w7 validated same h.
                    by_value _ h λ _ _ h. by_checking _ _ h λ _ h.
                      by_reading (Reads-new_transaction env _) same h λ output w8 _ same h.
                        by_reading (Reads-read_authentication_key env _) same h
                          λ key w9 keyed same9 h.
                            let key_node =
                              validate_pad-node env got.2 _ _ w6 checked validated
                              ∙ (header.2 ∙ p.1) in
                            let key_read =
                              read_authentication_key-reads env checked.1 w8 w.files pad key same
                                (ap w.files key_node ∙ hp) keyed in
                            let reserved = >>=-passed _ _ w9 h in
                            let kept =
                              reserve_usage-keeps env dir got.1.id sender (env.resolve pad_path) pad
                                w9
                                (
                                  ap (λ (fs : Files). fs (env.resolve pad_path)) same9 ∙ hp,
                                  is_regular_at pad p.0 hp p.2 p.3,
                                )
                                reserved.2 in
                            let at_key = key_read.1 ∙ key_node in
                            let marked = >>=-passed _ _ reserved.1 reserved.3 in
                            let mark =
                              mark_pad_consumed-marks env key.1 pad reserved.1 reserved.1.files refl
                                (ap reserved.1.files at_key ∙ kept) marked.2 in
                            let marked_pad : Node = record pad {
                              bytes = copy_at 17 (1 ∷ []) pad.bytes;
                            } in
                            let last =
                              write_envelope-keeps _ _ _ _ _ _ _ _ (env.resolve pad_path) marked_pad
                                marked.1
                                (ap (λ (fs : Files). fs (env.resolve pad_path)) mark.1
                                  ∙ (ap
                                        (λ q.
                                          put_file q marked_pad reserved.1.files
                                            (env.resolve pad_path))
                                        at_key
                                      ∙ put_file-same (env.resolve pad_path) _ reserved.1.files))
                                marked.3 in
                            (
                              got.1,
                              ap parsed hp ∙ ap some header.1,
                              ap parsed last
                                  ∙ ap some (marked_header pad.bytes got.1 good header.3 header.1),
                            )
