-- ===== src/Otp/Content.antt =====
-- otp/src/lib.rs: what the loops read, write and feed, as a whole.
pub mod Publish
pub mod Marking
pub mod Opening
pub mod Encryption
pub mod Decryption
pub mod RoundTrip
pub mod Untouched
pub mod Creation
pub mod Marked
use rust_encryption.Common.{
  ℕ, String, zero, suc, ◌+◌, ◌*◌, ◌≤◌, ◌≡◌, refl, sym, ap, ◌∙◌, ◌++◌, append_assoc, append-nil,
  List, [], ◌∷◌, arith, Bytes, length, take, drop, drop-drop, take-append-drop, length-take,
  length-drop, some, ok, Result, min,
}
use rust_encryption.Common.Xor.{xor_zip, xor_zip-append}
use rust_encryption.Otp.Error.{OtpError}
use rust_encryption.Otp.Chunks.{sum}
use rust_encryption.Otp.Files.{OutputTransaction, write_temp}
use rust_encryption.Otp.Pad.{digest_loop}
use rust_encryption.Otp.Encrypt.{Streams, encrypt_loop}
use rust_encryption.Otp.Decrypt.{mac_loop, decrypt_file_region}
use rust_encryption.Otp.World.{Node, World, Env, M, Handle, ◌>>=◌, pure}
use rust_encryption.Otp.World.Rules.{Files, Reads-tick}
use rust_encryption.Otp.Reading.{Reads-write_temp}
use rust_encryption.Otp.World.Passed.{by_reading, by_read_exact, read-passed, pure-passed}

-- The bytes of a file from a place on, so many of them.
abbrev pub part : ℕ → ℕ → Bytes → Bytes
part pos n bytes = take n (drop pos bytes)

take-nil : (n : ℕ) → take {A = ℕ} n [] ≡ []
take-nil zero = refl
take-nil (suc n) = refl

suc_add : (m n : ℕ) → suc m + n ≡ suc (m + n)
suc_add m n = omega arith

take_sum : (m n : ℕ) (xs : Bytes) → take (m + n) xs ≡ take m xs ++ take n (drop m xs)
take_sum zero n xs = ap (λ k. take k xs) (omega arith)
take_sum (suc m) n [] = take-nil (suc m + n) ∙ sym (take-nil n)
take_sum (suc m) n (x ∷ xs) =
    ap (λ k. take k (x ∷ xs)) (suc_add m n) ∙ ap (λ ys. x ∷ ys) (take_sum m n xs)

part_sum : (pos m n : ℕ) (xs : Bytes) → part pos (m + n) xs ≡ part pos m xs ++ part (pos + m) n xs
part_sum pos m n xs =
    take_sum m n (drop pos xs) ∙ ap (λ ys. part pos m xs ++ take n ys) (drop-drop m pos xs)

pub length-part : (pos n : ℕ) (xs : Bytes) → pos + n ≤ length xs → length (part pos n xs) ≡ n
length-part pos n xs h = omega (arith, length-take n (drop pos xs), length-drop pos xs)

fed-eq :
    (file : Handle) {a b : Bytes} {p q : ℕ}
    → a ≡ b
    → p ≡ q
    → ◌≡◌ {A = Bytes × Handle} (a, record file { pos = p }) (b, record file { pos = q })
fed-eq file {b} {p} e k =
    ap (λ bytes. (bytes, record file { pos = p })) e ∙ ap (λ n. (b, record file { pos = n })) k

-- The streams after `n` more bytes: what was written, what was fed to the MAC, and the key.
abbrev pub streamed : ℕ → Bytes → Bytes → Bytes → Streams → Streams
streamed n written fed key s = record {
  input = record s.input { pos = s.input.pos + n };
  pad = record s.pad { pos = s.pad.pos + n };
  output = record s.output { bytes = s.output.bytes ++ written };
  mac = s.mac ++ fed;
  digest = s.digest ++ key;
}

add_assoc : (a b c : ℕ) → a + b + c ≡ a + (b + c)
add_assoc a b c = omega arith

add_zero : (a : ℕ) → a + 0 ≡ a
add_zero a = omega arith

streamed-streamed :
    (m n : ℕ) (o1 o2 f1 f2 k1 k2 : Bytes) (s : Streams)
    → streamed n o2 f2 k2 (streamed m o1 f1 k1 s)
      ≡ streamed (m + n) (o1 ++ o2) (f1 ++ f2) (k1 ++ k2) s
streamed-streamed m n o1 o2 f1 f2 k1 k2 s = rw (
  add_assoc s.input.pos m n,
  add_assoc s.pad.pos m n,
  append_assoc s.output.bytes o1 o2,
  append_assoc s.mac f1 f2,
  append_assoc s.digest k1 k2,
)

streamed-eq :
    (n : ℕ) (s : Streams) {o o' f f' k k' : Bytes}
    → o ≡ o'
    → f ≡ f'
    → k ≡ k'
    → streamed n o f k s ≡ streamed n o' f' k' s
streamed-eq n s {o'} {f} {f'} {k} eo ef ek =
    ap (λ x. streamed n x f k s) eo
    ∙ (ap (λ x. streamed n o' x k s) ef ∙ ap (λ x. streamed n o' f' x s) ek)

streamed-none : (s : Streams) → s ≡ streamed 0 [] [] [] s
streamed-none s = rw (
  add_zero s.input.pos,
  add_zero s.pad.pos,
  append-nil s.output.bytes,
  append-nil s.mac,
  append-nil s.digest,
)

-- Two pieces of a text and of a key, one after the other.
pub xor_part :
    (p q m n : ℕ) (text key : Bytes)
    → p + m ≤ length text
    → q + m ≤ length key
    → xor_zip (part p m text) (part q m key) ++ xor_zip (part (p + m) n text) (part (q + m) n key)
      ≡ xor_zip (part p (m + n) text) (part q (m + n) key)
xor_part p q m n text key fits fits' =
    sym (
      xor_zip-append (part p m text) (part (p + m) n text) (part q m key) (part (q + m) n key)
        (length-part p m text fits ∙ sym (length-part q m key fits')))
    ∙ (ap (λ t. xor_zip t (part q m key ++ part (q + m) n key)) (sym (part_sum p m n text))
        ∙ ap (xor_zip (part p (m + n) text)) (sym (part_sum q m n key)))

module _ (env : Env) where
  write_temp-passed :
      (action : String) (bytes : Bytes) (t : OutputTransaction) (w : World) {t' : OutputTransaction}
      {w1 : World}
      → write_temp env action bytes t w ≡ (ok t', w1)
      → record t { bytes = t.bytes ++ bytes } ≡ t'
  unfolding write_temp
  write_temp-passed action bytes t w h =
      by_reading (Reads-tick env action) refl h λ _ w1 _ _ last. (pure-passed _ w1 last).0

  pub by_write_temp :
      {B G : Type 0} (action : String) (bytes : Bytes) (t : OutputTransaction)
      (f : OutputTransaction → M B) (w : World) {base : Files} {b : B} {w2 : World}
      → w.files ≡ base
      → (write_temp env action bytes t >>= f) w ≡ (ok b, w2)
      → ((w1 : World)
          → w1.files ≡ base
          → f (record t { bytes = t.bytes ++ bytes }) w1 ≡ (ok b, w2)
          → G)
      → G
  by_write_temp action bytes t f w same h rest =
      by_reading (Reads-write_temp env _ _ _) same h λ t' w1 ran same h.
        rest w1 same
          (ap (λ (t : OutputTransaction). f t w1) (write_temp-passed action bytes t _ ran) ∙ h)

  -- The loop that feeds the ciphertext to the MAC.
  pub mac_loop-part :
      (rounds : List ℕ) (mac : Bytes) (file : Handle) (w : World) (base : Files) (node : Node)
      (got : Bytes × Handle) (w1 : World)
      → w.files ≡ base
      → base file.node ≡ some node
      → mac_loop env rounds mac file w ≡ (ok got, w1)
      → got ≡ (
        mac ++ part file.pos (sum rounds) node.bytes,
        record file { pos = file.pos + sum rounds },
      )
  unfolding mac_loop
  mac_loop-part [] mac file w base node got w1 same there h =
      sym (pure-passed (mac, file) w h).0 ∙ fed-eq file (sym (append-nil mac)) (omega arith)
  mac_loop-part (amount ∷ rest) mac file w base node got w1 same there h =
      by_read_exact env _ _ _ _ _ _ node same there h λ w2 same fits h.
        let next = mac_loop-part rest _ _ w2 base node got w1 same there h in
        next
        ∙ fed-eq file
            (append_assoc mac _ _
              ∙ ap (λ bytes. mac ++ bytes) (sym (part_sum file.pos amount (sum rest) node.bytes)))
            (omega arith)

  -- The loop that encrypts: the ciphertext goes to the output and to the MAC.
  pub encrypt_loop-part :
      (rounds : List ℕ) (s : Streams) (w : World) (base : Files) (text pad : Node) (s' : Streams)
      (w1 : World)
      → w.files ≡ base
      → base s.input.node ≡ some text
      → base s.pad.node ≡ some pad
      → encrypt_loop env rounds s w ≡ (ok s', w1)
      → let t = part s.input.pos (sum rounds) text.bytes in
        let k = part s.pad.pos (sum rounds) pad.bytes in
        s' ≡ streamed (sum rounds) (xor_zip t k) (xor_zip t k) k s
  unfolding encrypt_loop
  encrypt_loop-part [] s w base text pad s' w1 same ht hp h =
      sym (pure-passed s w h).0 ∙ streamed-none s
  encrypt_loop-part (amount ∷ rest) s w base text pad s' w1 same ht hp h =
      by_read_exact env _ _ _ _ _ _ text same ht h λ w2 same fits h.
        by_read_exact env _ _ _ _ _ _ pad same hp h λ w3 same fits' h.
          by_write_temp _ _ _ _ _ same h λ w4 same h.
            let next = encrypt_loop-part rest _ w4 base text pad s' w1 same ht hp h in
            let xors =
              xor_part s.input.pos s.pad.pos amount (sum rest) text.bytes pad.bytes fits fits' in
            next
            ∙ (streamed-streamed amount (sum rest) _ _ _ _ _ _ s
                ∙ streamed-eq (amount + sum rest) s xors xors
                    (sym (part_sum s.pad.pos amount (sum rest) pad.bytes)))

  -- The loop that decrypts: the plaintext goes to the output, and the ciphertext to the MAC.
  pub decrypt_file_region-part :
      (rounds : List ℕ) (s : Streams) (w : World) (base : Files) (text pad : Node) (s' : Streams)
      (w1 : World)
      → w.files ≡ base
      → base s.input.node ≡ some text
      → base s.pad.node ≡ some pad
      → decrypt_file_region env rounds s w ≡ (ok s', w1)
      → let t = part s.input.pos (sum rounds) text.bytes in
        let k = part s.pad.pos (sum rounds) pad.bytes in
        s' ≡ streamed (sum rounds) (xor_zip t k) t k s
  unfolding decrypt_file_region
  decrypt_file_region-part [] s w base text pad s' w1 same ht hp h =
      sym (pure-passed s w h).0 ∙ streamed-none s
  decrypt_file_region-part (amount ∷ rest) s w base text pad s' w1 same ht hp h =
      by_read_exact env _ _ _ _ _ _ text same ht h λ w2 same fits h.
        by_read_exact env _ _ _ _ _ _ pad same hp h λ w3 same fits' h.
          by_write_temp _ _ _ _ _ same h λ w4 same h.
            let next = decrypt_file_region-part rest _ w4 base text pad s' w1 same ht hp h in
            let xors =
              xor_part s.input.pos s.pad.pos amount (sum rest) text.bytes pad.bytes fits fits' in
            next
            ∙ (streamed-streamed amount (sum rest) _ _ _ _ _ _ s
                ∙ streamed-eq (amount + sum rest) s xors
                    (sym (part_sum s.input.pos amount (sum rest) text.bytes))
                    (sym (part_sum s.pad.pos amount (sum rest) pad.bytes)))
