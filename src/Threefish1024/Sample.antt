-- ===== src/Threefish1024/Sample.antt =====
-- Concrete parameters that keep the documented laws: an in-memory file, a checksum in place of the
-- MAC, and words with the sum of the key and the tweak added.
use mathlib.Core.List.{map}
use mathlib.Core.Option.{some-injective}
use rust_encryption.Common.{
  ℕ, zero, suc, ◌+◌, ◌%◌, ◌^◌, ◌<◌, ◌≡◌, refl, sym, ap, ◌∙◌, true, false, Bool, List, [], ◌∷◌, ◌++◌,
  arith, some, Bytes, length, replicate, take, drop, leb, leb→le, if◌then◌else◌, bytes_eq,
  bytes_eq→eq, bytes_eq_refl, append-nil, append_assoc, take-append-drop, length-take,
  length-replicate,
}
use rust_encryption.Threefish1024.Ctr.{Cipher}
use rust_encryption.Threefish1024.Stream.StableFile.{StableFile}
use rust_encryption.Threefish1024.Deps.{Deps, DepsLaws, Exact, filled, unexpected_eof, failed}

abbrev total : List ℕ → ℕ
total [] = 0
total (w ∷ ws) = w + total ws

abbrev pub toy : List ℕ → List ℕ → Cipher
toy key tweak words = map (λ w. (w + total key + total tweak) % 2 ^ 64) words

pub length-toy : (key tweak words : List ℕ) → length (toy key tweak words) ≡ length words
length-toy key tweak [] = refl
length-toy key tweak (w ∷ words) = ap suc (length-toy key tweak words)

abbrev checksum : Bytes → Bytes
checksum bytes = (total bytes % 256) ∷ replicate 63 0

-- The whole file, and what is left to read.
abbrev pub File : Type 0
File = Bytes × Bytes

abbrev pub read_file : ℕ → File → Exact File
read_file n file =
    if leb n (length file.1) then filled (file.0, drop n file.1) (take n file.1) else unexpected_eof

abbrev pub deps : Deps
deps = record {
  hkdf_expand = λ salt master info len. some (replicate len 5);
  new_with_tweak_u64 = toy;
  Mac = Bytes;
  mac_new = some;
  mac_update = ◌++◌;
  mac_finalize = checksum;
  mac_verify = λ mac tag. bytes_eq (checksum mac) tag;
  Source = File;
  read = λ n file. some ((file.0, drop n file.1), take n file.1);
  read_exact = read_file;
  seek = λ n file. some (file.0, drop n file.0);
  fill = λ i n. some (replicate n i);
  can_write = λ _. true;
  can_flush = λ _. true;
}

pub take-is-nil : (n : ℕ) (bs : Bytes) → 0 < n → take n bs ≡ [] → bs ≡ []
take-is-nil n [] h e = refl
take-is-nil zero (b ∷ bs) h e = absurd (omega arith)
take-is-nil (suc n) (b ∷ bs) h e = cc

-- What a read of `n` bytes from what is left gives, and what it leaves.
pub read_parts :
    (n : ℕ) (file file' : File) (bs : Bytes)
    → ◌≡◌ {A = File × Bytes} ((file.0, drop n file.1), take n file.1) (file', bs)
    → (file.1 ≡ bs ++ file'.1) × (bs ≡ take n file.1)
read_parts n file file' bs p =
    let rest = ap (λ (q : File × Bytes). q.0.1) p in
    let got = ap (λ (q : File × Bytes). q.1) p in
    (
      sym (take-append-drop n file.1)
          ∙ ap (λ (t : Bytes). t ++ drop n file.1) got
          ∙ ap (λ (t : Bytes). bs ++ t) rest,
      sym got,
    )

abbrev parts : File × Bytes → Exact File → File × Bytes
parts default (filled file bytes) = (file, bytes)
parts default unexpected_eof = default
parts default failed = default

pub exact_whole :
    (n : ℕ) (file file' : File) (bs : Bytes) → read_file n file ≡ filled file' bs → file'.0 ≡ file.0
exact_whole n file file' bs h = go (leb n (length file.1)) h
  where
    go :
        (b : Bool)
        → (if b then filled (file.0, drop n file.1) (take n file.1) else unexpected_eof)
          ≡ filled file' bs
        → file'.0 ≡ file.0
    go true h = sym (ap (λ (r : Exact File). (parts (file, bs) r).0.0) h)
    go false h = cc

pub exact_parts :
    (n : ℕ) (file file' : File) (bs : Bytes)
    → read_file n file ≡ filled file' bs
    → (file.1 ≡ bs ++ file'.1) × (length bs ≡ n)
exact_parts n file file' bs h = go (leb n (length file.1)) refl h
  where
    go :
        (b : Bool)
        → leb n (length file.1) ≡ b
        → (if b then filled (file.0, drop n file.1) (take n file.1) else unexpected_eof)
          ≡ filled file' bs
        → (file.1 ≡ bs ++ file'.1) × (length bs ≡ n)
    go true e h =
        let (whole, got) =
          read_parts n file file' bs (ap (λ (r : Exact File). parts (file, bs) r) h) in
        (whole, ap length got ∙ omega (arith, length-take {0} n file.1, leb→le n (length file.1) e))
    go false e h = cc

abbrev pub deps-DepsLaws : DepsLaws deps
deps-DepsLaws = record {
  update_nil = append-nil;
  update_update = λ m xs ys. append_assoc m xs ys;
  verify_iff = λ m tag. (
    λ h. bytes_eq→eq (checksum m) tag h,
    λ h. ap (bytes_eq (checksum m)) (sym h) ∙ bytes_eq_refl (checksum m),
  );
  content = λ file. file.1;
  read_content = λ n s s' bs h.
      let (whole, got) = read_parts n s s' bs (some-injective _ _ h) in
      (whole, omega (arith, ap length got, length-take {0} n s.1));
  read_end = λ n s s' pos h.
      let (_, got) = read_parts n s s' [] (some-injective _ _ h) in take-is-nil n s.1 pos (sym got);
  exact_content = exact_parts;
  cipher_size = λ key tweak words h. length-toy key tweak words ∙ h;
  fill_size = λ i n bs h. ap length (sym (some-injective _ _ h)) ∙ length-replicate n i;
}

abbrev pub deps-StableFile : StableFile deps deps-DepsLaws
deps-StableFile = record {
  file = λ file. file.0;
  file_read = λ n s s' bs h. sym (ap (λ (q : File × Bytes). q.0.0) (some-injective _ _ h));
  file_exact = exact_whole;
  seek_content = λ n s s' h. sym (ap (λ (q : File). q.1) (some-injective _ _ h));
}
