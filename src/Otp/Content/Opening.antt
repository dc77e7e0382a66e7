-- ===== src/Otp/Content/Opening.antt =====
-- otp/src/lib.rs: the files that are open once the inputs have been opened and checked.
use rust_encryption.Common.{
  ℕ, if◌then◌else◌, ◌==◌, String, suc, ◌+◌, ◌-◌, ◌≤◌, ◌≡◌, refl, sym, ap, ◌∙◌, [], List, ◌∷◌, arith,
  Bytes, length, take, drop, drop-append_past, drop-drop, length-take, true, false, not_false→true,
  some, none, Option, Result, ok-injective, ok, err, bytes_eq, Bool, not, fail_if,
}
use rust_encryption.Common.Slices.{copy_at}
use rust_encryption.Otp.Role.{PadRole, sender, receiver, role_byte}
use rust_encryption.Otp.PadHeader.{PadHeader, parse_pad_header}
use rust_encryption.Otp.EnvelopeHeader.{EnvelopeHeader, parse_envelope_header}
use rust_encryption.Otp.Decrypt.{read_envelope_header}
use rust_encryption.Otp.Files.{
  Description, OutputTransaction, new_transaction, is_regular, open_regular, open_pad,
  ensure_distinct, vacant,
}
use rust_encryption.Otp.Pad.{
  read_pad_header, validate_pad, digest_loop, read_authentication_key, require_fresh_role,
}
use rust_encryption.Otp.Error.{OtpError, wrong_pad_role, pad_already_used}
use rust_encryption.Otp.World.{FilePath, Node, World, Env, Handle, M, ◌>>=◌, look, symlink_metadata}
use rust_encryption.Otp.World.Rules.{
  Files, Reads-tick, Reads-open_file, Reads-metadata, Reads-symlink_metadata, Reads-found,
  Reads-look, Reads-read_exact,
}
use rust_encryption.Otp.World.Passed.{
  by_reading, by_knowing, by_checking, by_value, by_seek, by_read_exact, pure-passed,
  metadata-passed, open_file-passed, lift-passed, read_exact-passed,
}
use rust_encryption.Otp.Reading.{Reads-vacant, Reads-new_transaction, Reads-digest_loop}
use rust_encryption.Otp.Content.{part}
use rust_encryption.Otp.Content.Publish.{fail_if-false, node_eq}

vacant-none :
    (e : OtpError) (o : Option Node) (w : World) {u : Unit {0}} {w1 : World}
    → vacant e o w ≡ (ok u, w1)
    → o ≡ none
vacant-none e none w h = refl
vacant-none e (some node) w h = let r = lift-passed (err e) w h in cc

module _ (env : Env) where
  pub open_regular-opens :
      (path : FilePath) (description : Description) (w : World) (base : Files) {file : Handle}
      {w1 : World}
      → w.files ≡ base
      → open_regular env path description w ≡ (ok file, w1)
      → (node : Node) × (file.node ≡ env.resolve path)
        × (base (env.resolve path) ≡ some node)
        × (is_regular node.kind ≡ true)
  unfolding open_regular
  open_regular-opens path description w base same h =
      by_knowing _ w (record { node = env.resolve path; pos = 0 }) (Reads-open_file env _ _)
        (λ f w1 ran. sym (open_file-passed env _ path w ran)) same h
        λ w2 same h. by_reading (Reads-metadata env _ _) same h λ node w3 got _ h.
          by_checking _ _ h λ regular h.
            let last = pure-passed _ w3 h in
            (
              node,
              ap (λ (f : Handle). f.node) (sym last.0),
              ap (λ (fs : Files). fs (env.resolve path)) (sym same)
                  ∙ metadata-passed env _ _ w2 got,
              not_false→true _ regular,
            )

  pub open_pad-opens :
      (path : FilePath) (w : World) (base : Files) {file : Handle} {w1 : World}
      → w.files ≡ base
      → open_pad env path w ≡ (ok file, w1)
      → (node : Node) × (file.node ≡ env.resolve path)
        × (base (env.resolve path) ≡ some node)
        × (is_regular node.kind ≡ true)
  unfolding open_pad
  open_pad-opens path w base same h =
      by_reading (Reads-symlink_metadata env _ _) same h λ there w2 _ same h.
        by_reading (Reads-found _ there) same h λ node w3 _ same h.
          by_checking _ _ h λ _ h. by_checking _ _ h λ _ h. open_regular-opens path _ w3 base same h

  pub ensure_distinct-differ :
      (first second : FilePath) (description : String) (w : World) {u : Unit {0}} {w1 : World}
      → ensure_distinct env first second description w ≡ (ok u, w1)
      → bytes_eq (env.resolve first) (env.resolve second) ≡ false
  unfolding ensure_distinct
  ensure_distinct-differ first second description w h =
      by_reading (Reads-tick env _) refl h λ _ _ _ _ h.
        by_reading (Reads-look _) refl h λ one _ _ _ h.
          by_reading (Reads-found _ one) refl h λ _ _ _ _ h.
            by_reading (Reads-look _) refl h λ other _ _ _ h.
              by_reading (Reads-found _ other) refl h
                λ _ w2 _ _ h. fail_if-false _ _ (lift-passed _ w2 h).0

  pub read_pad_header-reads :
      (file : Handle) (w : World) (base : Files) (node : Node) (got : Bytes × PadHeader × Handle)
      {w1 : World}
      → w.files ≡ base
      → base file.node ≡ some node
      → read_pad_header env file w ≡ (ok got, w1)
      → (got.0 ≡ take 80 node.bytes)
        × (parse_pad_header (take 80 node.bytes) ≡ ok got.1)
        × (got.2.node ≡ file.node)
        × (80 ≤ length node.bytes)
  unfolding read_pad_header
  read_pad_header-reads file w base node got same there h =
      by_seek env _ _ _ _ _ same h λ w2 same h.
        by_read_exact env _ _ _ _ _ _ node same there h λ w3 same fits h.
          by_value _ h λ header parses h.
            let last = pure-passed _ w3 h in
            (
              ap (λ (r : Bytes × PadHeader × Handle). r.0) (sym last.0),
              parses ∙ ap (λ (r : Bytes × PadHeader × Handle). ok r.1) last.0,
              ap (λ (r : Bytes × PadHeader × Handle). r.2.node) (sym last.0),
              omega (arith, fits),
            )

  digest_loop-node :
      (rounds : List ℕ) (digest : Bytes) (file : Handle) (w : World) (got : Bytes × Handle)
      {w1 : World}
      → digest_loop env rounds digest file w ≡ (ok got, w1)
      → got.1.node ≡ file.node
  unfolding digest_loop
  digest_loop-node [] digest file w got h =
      ap (λ (r : Bytes × Handle). r.1.node) (sym (pure-passed (digest, file) w h).0)
  digest_loop-node (amount ∷ rest) digest file w got h =
      by_reading (Reads-read_exact env _ _ _ _) refl h λ r w2 ran _ h.
        digest_loop-node rest _ _ w2 got h
        ∙ ap (λ (r : Bytes × Handle). r.1.node) (read_exact-passed env _ _ _ file w ran).2

  pub validate_pad-node :
      (file : Handle) (header_bytes : Bytes) (header : PadHeader) (w : World) (got : Bytes × Handle)
      {w1 : World}
      → validate_pad env file header_bytes header w ≡ (ok got, w1)
      → got.1.node ≡ file.node
  unfolding validate_pad
  validate_pad-node file header_bytes header w got h =
      by_reading (Reads-metadata env _ _) refl h λ node w2 _ _ h. by_value _ h λ len _ h.
        by_checking _ _ h λ _ h. by_seek env _ _ _ _ _ refl h λ w3 _ h.
          by_reading (Reads-digest_loop env _ _ _) refl h λ digest w4 looped _ h.
            by_reading (Reads-read_exact env _ _ _ _) refl h λ stored w5 ran _ h.
              by_checking _ _ h λ _ h.
                ap (λ (r : Bytes × Handle). r.1.node) (sym (pure-passed stored w5 h).0)
                ∙ (ap (λ (r : Bytes × Handle). r.1.node)
                      (read_exact-passed env _ _ _ digest.1 w4 ran).2
                    ∙ digest_loop-node _ _ _ w3 digest looped)

  pub read_authentication_key-reads :
      (file : Handle) (w : World) (base : Files) (node : Node) (got : Bytes × Handle) {w1 : World}
      → w.files ≡ base
      → base file.node ≡ some node
      → read_authentication_key env file w ≡ (ok got, w1)
      → (got.0 ≡ part 80 32 node.bytes) × (got.1.node ≡ file.node)
  unfolding read_authentication_key
  read_authentication_key-reads file w base node got same there h =
      by_seek env _ _ _ _ _ same h λ w2 same h.
        let r = read_exact-passed env _ _ _ _ w2 h in
        (
          ap (λ (r : Bytes × Handle). r.0) r.2
              ∙ ap (λ (n : Node). part 80 32 n.bytes)
                  (node_eq r.0 node (sym r.1 ∙ (ap (λ (fs : Files). fs file.node) same ∙ there))),
          ap (λ (r : Bytes × Handle). r.1.node) r.2,
        )

  pub read_envelope_header-reads :
      (file : Handle) (w : World) (base : Files) (node : Node)
      (got : Bytes × EnvelopeHeader × Handle) {w1 : World}
      → w.files ≡ base
      → base file.node ≡ some node
      → read_envelope_header env file w ≡ (ok got, w1)
      → (got.0 ≡ take 64 node.bytes)
        × (parse_envelope_header (take 64 node.bytes) ≡ ok got.1)
        × (got.2.node ≡ file.node)
  unfolding read_envelope_header
  read_envelope_header-reads file w base node got same there h =
      by_seek env _ _ _ _ _ same h λ w2 same h.
        by_read_exact env _ _ _ _ _ _ node same there h λ w3 same _ h.
          by_value _ h λ header parses h.
            let last = pure-passed _ w3 h in
            (
              ap (λ (r : Bytes × EnvelopeHeader × Handle). r.0) (sym last.0),
              parses ∙ ap (λ (r : Bytes × EnvelopeHeader × Handle). ok r.1) last.0,
              ap (λ (r : Bytes × EnvelopeHeader × Handle). r.2.node) (sym last.0),
            )

  symlink_metadata-looks :
      (action : String) (path : FilePath) (w : World) {there : Option Node} {w1 : World}
      → symlink_metadata env action path w ≡ (ok there, w1)
      → there ≡ w.files path
  unfolding symlink_metadata look
  symlink_metadata-looks action path w h =
      by_reading (Reads-tick env action) refl h λ _ w2 _ same h.
        sym (ok-injective (ap (λ (r : Result OtpError (Option Node) × World). r.0) h))
        ∙ ap (λ (fs : Files). fs path) same

  new_transaction-vacant :
      (path : FilePath) (w : World) {t : OutputTransaction} {w1 : World}
      → new_transaction env path w ≡ (ok t, w1)
      → w.files path ≡ none
  unfolding new_transaction
  new_transaction-vacant path w h =
      by_reading (Reads-symlink_metadata env _ _) refl h λ there w2 looked _ h.
        by_reading (Reads-vacant _ there) refl h λ _ w3 vacancy _ _.
          sym (symlink_metadata-looks _ path w looked) ∙ vacant-none _ there w2 vacancy

  new_transaction-empty :
      (path : FilePath) (w : World) (t : OutputTransaction) {w1 : World}
      → new_transaction env path w ≡ (ok t, w1)
      → t ≡ record { destination = path; bytes = [] }
  unfolding new_transaction
  new_transaction-empty path w t h =
      by_reading (Reads-symlink_metadata env _ _) refl h λ there w2 _ _ h.
        by_reading (Reads-vacant _ there) refl h λ _ w3 _ _ h.
          by_checking _ _ h
            λ _ h. by_reading (Reads-tick env _) refl h λ _ w4 _ _ h. sym (pure-passed _ w4 h).0

  -- The step of a proof for the start of an output: its path was vacant, and it has no bytes yet.
  pub by_new_transaction :
      {B G : Type 0} (f : OutputTransaction → M B) (path : FilePath) (w : World) {base : Files}
      {b : B} {w2 : World}
      → w.files ≡ base
      → (new_transaction env path >>= f) w ≡ (ok b, w2)
      → ((w1 : World)
          → base path ≡ none
          → w1.files ≡ base
          → f (record { destination = path; bytes = [] }) w1 ≡ (ok b, w2)
          → G)
      → G
  by_new_transaction f path w same h rest =
      by_reading (Reads-new_transaction env path) same h λ t w1 created same' h.
        rest w1 (ap (λ (fs : Files). fs path) (sym same) ∙ new_transaction-vacant path w created)
          same' (ap (λ t. f t w1) (sym (new_transaction-empty path w t created)) ∙ h)

fresh_parts :
    (role expected : PadRole) (consumed : Bool) (header_role : PadRole) {u : Unit {0}}
    → (if not (role_byte role == role_byte expected)
        then err (wrong_pad_role expected header_role)
        else fail_if consumed pad_already_used)
      ≡ ok u
    → (role ≡ expected) × (consumed ≡ false)
unfolding role_byte
fresh_parts sender sender false r h = (refl, refl)
fresh_parts receiver receiver false r h = (refl, refl)
fresh_parts sender sender true r h = cc
fresh_parts receiver receiver true r h = cc
fresh_parts sender receiver c r h = cc
fresh_parts receiver sender c r h = cc

pub require_fresh_role-passed :
    (header : PadHeader) (expected : PadRole) {u : Unit {0}}
    → require_fresh_role header expected ≡ ok u
    → (header.role ≡ expected) × (header.consumed ≡ false)
unfolding require_fresh_role
require_fresh_role-passed header expected h =
    fresh_parts header.role expected header.consumed header.role h

-- The mark is in front of the key and of the pad material.
pub part-marked :
    (p n : ℕ) (bs : Bytes)
    → 18 ≤ p
    → 80 ≤ length bs
    → part p n (copy_at 17 (1 ∷ []) bs) ≡ part p n bs
part-marked p n bs h k =
    let marked = copy_at 17 (1 ∷ []) bs in
    let place : p ≡ 17 + suc (p - 18) = omega (arith, h) in
    ap (λ q. part q n marked) place
    ∙ (ap (take n) (
          drop-append_past 17 (suc (p - 18)) (take 17 bs) (1 ∷ drop 18 bs)
            (omega (arith, k, length-take 17 bs))
          ∙ drop-drop (p - 18) 18 bs)
        ∙ ap (λ q. part q n bs) (omega (arith, h)))
