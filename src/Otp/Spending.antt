-- ===== src/Otp/Spending.antt =====
-- otp/src/lib.rs: what a successful encryption or decryption does to the ledger of used pads.
use rust_encryption.Common.{
  true, false, Option, none, some, Option, Bytes, Result, ok, ◌≡◌, refl, sym, ap, ◌∙◌, take, drop,
}
use rust_encryption.Otp.Error.{OtpError, pad_already_used}
use rust_encryption.Otp.Role.{PadRole, sender, receiver}
use rust_encryption.Otp.PadHeader.{PadHeader, parse_pad_header}
use rust_encryption.Otp.Files.{open_regular, open_pad}
use rust_encryption.Otp.Ledger.{ledger_path, create_new, reserve_usage, ensure_state_directory}
use rust_encryption.Otp.Pad.{read_pad_header}
use rust_encryption.Otp.Encrypt.{encrypt_file_with_state}
use rust_encryption.Otp.Decrypt.{decrypt_file_with_state}
use rust_encryption.Otp.World.{FilePath, Node, World, Env, Handle}
use rust_encryption.Otp.World.Rules.{
  Files, there, >>=-passed, Grows->>=, Reads-tick, Reads-metadata, Reads-symlink_metadata,
  Reads-found, Reads-seek, Reads-read_exact, Reads-Grows, Grows-put,
}
use rust_encryption.Otp.World.Passed.{
  by_reading, by_checking, by_value, read-passed, value-passed, look-passed, pure-passed,
  seek-passed, read_exact-passed, open_file-passed, check-passed,
}
use rust_encryption.Otp.Reading.{
  Reads-open_regular, Reads-open_pad, Reads-ensure_distinct, Reads-new_transaction,
  Reads-read_pad_header, Reads-validate_pad, Reads-read_authentication_key, Reads-sync_parent,
  Reads-read_envelope_header, Reads-authenticate_envelope,
}
use rust_encryption.Otp.Growth.{
  Grows-ensure_state_directory, Grows-mark_pad_consumed, Grows-write_envelope,
  Grows-write_plaintext,
}
use rust_encryption.Otp.Kept.{was_there, grown-passed, vacant-passed, put-there}

-- The header in the pad file that a path leads to.
abbrev pub parsed : Option Node → Option (Result OtpError PadHeader)
parsed none = none
parsed (some node) = some (parse_pad_header (take 80 node.bytes))

abbrev pub header_at : Env → World → FilePath → Option (Result OtpError PadHeader)
header_at env w path = parsed (w.files (env.resolve path))

-- The files have no entry of the ledger for a pad, and later they have one.
pub record Spends (env : Env) (pad_path state_directory : FilePath) (role : PadRole) (w w' : World)
    : Type 0 where
  pub header : PadHeader
  pub header_eq : header_at env w pad_path ≡ some (ok header)
  pub before : there (w.files (ledger_path state_directory header.id role)) ≡ false
  pub after : there (w'.files (ledger_path state_directory header.id role)) ≡ true

-- The header that was read is that of the file.
parsed-handle :
    (files files1 : Files) (file moved : Handle) (node : Node) (bytes : Bytes) (header : PadHeader)
    → files1 ≡ files
    → record file { pos = 0 } ≡ moved
    → files1 moved.node ≡ some node
    → bytes ≡ take 80 (drop moved.pos node.bytes)
    → parse_pad_header bytes ≡ ok header
    → parsed (files file.node) ≡ some (ok header)
parsed-handle files files1 file moved node bytes header same at_start there_is read parses =
    let spot : files file.node ≡ some node =
      ap (λ (fs : Files). fs file.node) (sym same)
      ∙ (ap (λ (place : Handle). files1 place.node) at_start ∙ there_is) in
    let content : take 80 node.bytes ≡ bytes =
      ap (λ (place : Handle). take 80 (drop place.pos node.bytes)) at_start ∙ sym read in
    ap parsed spot ∙ ap some (ap parse_pad_header content ∙ parses)

module _ (env : Env) where
  create_new-passed :
      (path : FilePath) (w : World) {u : Unit {0}} {w1 : World}
      → create_new env path w ≡ (ok u, w1)
      → (there (w.files path) ≡ false) × (there (w1.files path) ≡ true)
  unfolding create_new
  create_new-passed path w h =
      let ticked = read-passed (Reads-tick env "reserving pad usage") _ w h in
      let looked = look-passed path _ ticked.1 ticked.3 in
      let free = vacant-passed pad_already_used (ticked.1.files path) _ ticked.1 looked in
      (
        ap (λ (files : Files). there (files path)) (sym ticked.4) ∙ free.0,
        put-there path _ ticked.1 free.1,
      )

  reserve_usage-passed :
      (dir : FilePath) (id : Bytes) (role : PadRole) (w : World) {u : Unit {0}} {w1 : World}
      → reserve_usage env dir id role w ≡ (ok u, w1)
      → (there (w.files (ledger_path dir id role)) ≡ false)
        × (there (w1.files (ledger_path dir id role)) ≡ true)
  unfolding reserve_usage
  reserve_usage-passed dir id role w h =
      let ensured = >>=-passed (ensure_state_directory env dir) _ w h in
      let created =
        grown-passed _ (ledger_path dir id role) ensured.1 ensured.3
          (λ done. search (Grows->>=, Reads-Grows, Reads-tick, Grows-put, Reads-sync_parent)) in
      let new = create_new-passed (ledger_path dir id role) ensured.1 created.2 in
      (
        was_there (ledger_path dir id role) w ensured.2 (Grows-ensure_state_directory env dir)
            new.0,
        created.3 new.1,
      )

  read_pad_header-passed :
      (file : Handle) (w : World) (got : Bytes × PadHeader × Handle) {w1 : World}
      → read_pad_header env file w ≡ (ok got, w1)
      → parsed (w.files file.node) ≡ some (ok got.1)
  unfolding read_pad_header
  read_pad_header-passed file w got h =
      let sought = read-passed (Reads-seek env "seeking pad" 0 file) _ w h in
      let read =
        read-passed (Reads-read_exact env _ "reading pad header" 80 sought.0) _ sought.1 sought.3 in
      let header = value-passed (parse_pad_header read.0.0) _ read.1 read.3 in
      let result = pure-passed _ read.1 header.2 in
      let at_start = seek-passed env "seeking pad" 0 file w sought.2 in
      let bytes = read_exact-passed env _ "reading pad header" 80 sought.0 sought.1 read.2 in
      parsed-handle w.files sought.1.files file sought.0 bytes.0 read.0.0 got.1 sought.4 at_start
        bytes.1 (ap (λ p. p.0) bytes.2)
        (header.1 ∙ ap (λ (r : Bytes × PadHeader × Handle). ok r.1) result.0)

  open_pad-passed :
      (path : FilePath) (w : World) {file : Handle} {w1 : World}
      → open_pad env path w ≡ (ok file, w1)
      → file.node ≡ env.resolve path
  unfolding open_pad open_regular
  open_pad-passed path w h =
      let seen = read-passed (Reads-symlink_metadata env "checking pad path" path) _ w h in
      let found = read-passed (Reads-found _ seen.0) _ seen.1 seen.3 in
      let plain = check-passed _ _ _ found.1 found.3 in
      let private = check-passed _ _ _ found.1 plain.1 in
      let opened = >>=-passed _ _ found.1 private.1 in
      let looked = >>=-passed _ _ opened.1 opened.3 in
      let regular = check-passed _ _ _ looked.1 looked.3 in
      let same = pure-passed _ looked.1 regular.1 in
      ap (λ (f : Handle). f.node) (sym (open_file-passed env _ path found.1 opened.2 ∙ same.0))

  -- The parts of both functions that concern the ledger.
  spends :
      (pad_path dir : FilePath) (role : PadRole) (w opened reserving reserved w' : World)
      (file : Handle) (got : Bytes × PadHeader × Handle) {u : Unit {0}} {w1 : World}
      → file.node ≡ env.resolve pad_path
      → opened.files ≡ w.files
      → read_pad_header env file opened ≡ (ok got, w1)
      → reserving.files ≡ w.files
      → reserve_usage env dir got.1.id role reserving ≡ (ok u, reserved)
      → (there (reserved.files (ledger_path dir got.1.id role)) ≡ true
          → there (w'.files (ledger_path dir got.1.id role)) ≡ true)
      → Spends env pad_path dir role w w'
  spends pad_path dir role w opened reserving reserved w' file got leads same read same' done kept =
      let ledger = reserve_usage-passed dir got.1.id role reserving done in
      record {
        header = got.1;
        header_eq =
            ap (λ (spot : FilePath). parsed (w.files spot)) (sym leads)
            ∙ (ap (λ (fs : Files). parsed (fs file.node)) (sym same)
                ∙ read_pad_header-passed file opened got read);
        before =
            ap (λ (fs : Files). there (fs (ledger_path dir got.1.id role))) (sym same') ∙ ledger.0;
        after = kept ledger.1;
      }

  -- An encryption that succeeds has found no entry of the ledger for the pad, and has made one.
  pub encrypt_file_with_state-Spends :
      (input_path pad_path output_path state_directory : FilePath) (w w' : World)
      → encrypt_file_with_state env input_path pad_path output_path state_directory w ≡ (ok tt, w')
      → Spends env pad_path state_directory sender w w'
  unfolding encrypt_file_with_state
  encrypt_file_with_state-Spends input_path pad_path output_path state_directory w w' h =
      by_reading (Reads-ensure_distinct env _ _ _) refl h λ _ w1 _ same h.
        by_reading (Reads-open_regular env _ _) same h λ input w2 _ same h.
          by_reading (Reads-metadata env _ _) same h λ node w3 _ same h.
            by_reading (Reads-open_pad env _) same h λ file w4 opened same h.
              by_reading (Reads-tick env _) same h λ _ w5 _ locked h.
                by_reading (Reads-read_pad_header env _) locked h λ got w6 read same h.
                  by_reading (Reads-validate_pad env _ _ _) same h λ checked w7 _ same h.
                    by_value _ h λ _ _ h. by_checking _ _ h λ _ h.
                      by_reading (Reads-new_transaction env _) same h λ output w8 _ same h.
                        by_reading (Reads-read_authentication_key env _) same h λ key w9 _ same h.
                          let reserved =
                            grown-passed _ (ledger_path state_directory got.1.id sender) w9 h
                              (λ done.
                                search
                                  (Grows->>=, Grows-mark_pad_consumed, Grows-write_envelope)) in
                          spends pad_path state_directory sender w w5 w9 reserved.1 w' file got
                            (open_pad-passed pad_path w3 opened) locked read same reserved.2
                            reserved.3

  -- The same of a decryption, with the role of a receiver.
  pub decrypt_file_with_state-Spends :
      (input_path pad_path output_path state_directory : FilePath) (w w' : World)
      → decrypt_file_with_state env input_path pad_path output_path state_directory w ≡ (ok tt, w')
      → Spends env pad_path state_directory receiver w w'
  unfolding decrypt_file_with_state
  decrypt_file_with_state-Spends input_path pad_path output_path state_directory w w' h =
      by_reading (Reads-ensure_distinct env _ _ _) refl h λ _ w1 _ same h.
        by_reading (Reads-open_regular env _ _) same h λ input w2 _ same h.
          by_reading (Reads-metadata env _ _) same h λ node w3 _ same h.
            by_reading (Reads-read_envelope_header env _) same h λ envelope w4 _ same h.
              by_value _ h λ expected _ h. by_checking _ _ h λ _ h.
                by_reading (Reads-open_pad env _) same h λ file w5 opened same h.
                  by_reading (Reads-tick env _) same h λ _ w6 _ locked h.
                    by_reading (Reads-read_pad_header env _) locked h λ got w7 read same h.
                      by_reading (Reads-validate_pad env _ _ _) same h λ checked w8 _ same h.
                        by_value _ h λ _ _ h. by_checking _ _ h λ _ h. by_checking _ _ h λ _ h.
                          by_reading (Reads-read_authentication_key env _) same h λ key w9 _ same h.
                            by_reading (Reads-authenticate_envelope env _ _ _ _) same h
                              λ _ w10 _ same h.
                                by_reading (Reads-new_transaction env _) same h
                                  λ output w11 _ same h.
                                    let reserved =
                                      grown-passed _ (ledger_path state_directory got.1.id receiver)
                                        w11 h
                                        (λ done. search (
                                          Grows->>=, Grows-mark_pad_consumed, Grows-write_plaintext,
                                        )) in
                                    spends pad_path state_directory receiver w w6 w11 reserved.1 w'
                                      file got (open_pad-passed pad_path w4 opened) locked read same
                                      reserved.2 reserved.3
