-- ===== src/Threefish1024/Stream/StableFile.antt =====
-- Reading a file that nobody changes: the first pass leaves a state of the same file.
use rust_encryption.Common.{
  ℕ, zero, suc, ◌-◌, ◌≡◌, refl, sym, ap, ◌∙◌, not, min, some, ok, Bytes, length, drop, fail_if,
  fail_if-passed, ok_or-passed, >>=-eq-ok, run_then-passed, run_some-passed, run-injective,
  some-run-injective, ok-injective, ok_or-eq-ok, ◌==◌,
}
use rust_encryption.Threefish1024.Error.{
  invalid_format, io, authentication_failed, trailing_data, ciphertext_truncated,
}
use rust_encryption.Threefish1024.Deps.{Deps, DepsLaws, Exact, filled, unexpected_eof, failed}
use rust_encryption.Threefish1024.Stream.{
  io_buffer_len, read, exact_format, read_exact_format, start_mac, verify_loop, check_tag,
  verify_ciphertext,
}

-- The bytes of the file, which stay, and where a seek leads.
pub record StableFile (d : Deps) (l : DepsLaws d) : Type 0 where
  pub file : d.Source → Bytes
  pub file_read :
      (n : ℕ) (s s' : d.Source) (bs : Bytes) → d.read n s ≡ some (s', bs) → file s' ≡ file s
  pub file_exact :
      (n : ℕ) (s s' : d.Source) (bs : Bytes) → d.read_exact n s ≡ filled s' bs → file s' ≡ file s
  pub seek_content :
      (n : ℕ) (s s' : d.Source) → d.seek n s ≡ some s' → l.content s' ≡ drop n (file s)

module _ (d : Deps) (l : DepsLaws d) (f : StableFile d l) where
  pub read_exact_format-file :
      (n : ℕ) (s s' : d.Source) (bs : Bytes)
      → read_exact_format d n s ≡ ok (s', bs)
      → f.file s' ≡ f.file s
  read_exact_format-file n s s' bs h = go (d.read_exact n s) refl h
    where
      go :
          (r : Exact d.Source)
          → d.read_exact n s ≡ r
          → exact_format d r ≡ ok (s', bs)
          → f.file s' ≡ f.file s
      go (filled s2 bs2) e h =
          f.file_exact n s s' bs
            (e ∙ ap (λ (q : d.Source × Bytes). filled q.0 q.1) (ok-injective h))
      go unexpected_eof e h = cc
      go failed e h = cc

  verify_loop-file :
      (fuel : ℕ) (s : d.Source) (mac : d.Mac) (n : ℕ) (r : d.Source × d.Mac)
      → verify_loop d fuel s mac n ≡ some (ok r)
      → f.file r.0 ≡ f.file s
  unfolding verify_loop
  verify_loop-file fuel s mac zero r h =
      sym (ap (λ (q : d.Source × d.Mac). f.file q.0) (run-injective h))
  verify_loop-file zero s mac (suc n) r h = cc
  verify_loop-file (suc fuel) s mac (suc n) r h =
      let (got, e1, h1) = run_some-passed (read d (min (suc n) io_buffer_len) s) _ h in
      let (_, e2, h2) =
        run_some-passed (fail_if (length got.1 == 0) (invalid_format ciphertext_truncated)) _ h1 in
      verify_loop-file fuel got.0 (d.mac_update mac got.1) (suc n - length got.1) r h2
      ∙ f.file_read (min (suc n) io_buffer_len) s got.0 got.1 (ok_or-eq-ok _ _ e1)

  check_tag-file :
      (s s' : d.Source) (mac : d.Mac) → check_tag d s mac ≡ ok s' → f.file s' ≡ f.file s
  unfolding check_tag
  check_tag-file s s' mac h =
      let (supplied, e1, h1) = >>=-eq-ok (read_exact_format d 64 s) _ h in
      let (trailing, e2, h2) = ok_or-passed (d.read 1 supplied.0) (io "read") _ h1 in
      let (_, h3) =
        fail_if-passed (not (length trailing.1 == 0)) (invalid_format trailing_data) _ h2 in
      let (_, h4) = fail_if-passed (not (d.mac_verify mac supplied.1)) authentication_failed _ h3 in
      sym (ap f.file (ok-injective h4))
      ∙ f.file_read 1 supplied.0 trailing.0 trailing.1 e2
      ∙ read_exact_format-file 64 s supplied.0 supplied.1 e1

  pub verify_ciphertext-file :
      (s s' : d.Source) (n : ℕ) (header key : Bytes)
      → verify_ciphertext d s n header key ≡ some (ok s')
      → f.file s' ≡ f.file s
  unfolding verify_ciphertext
  verify_ciphertext-file s s' n header key h =
      let (mac, started, h1) = run_some-passed (start_mac d header key) _ h in
      let (r, looped, h2) = run_then-passed (verify_loop d n s mac n) _ h1 in
      check_tag-file r.0 s' r.1 (some-run-injective h2) ∙ verify_loop-file n s mac n r looped
