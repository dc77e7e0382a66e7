-- ===== src/Threefish1024/Stream/Verify.antt =====
-- What the first pass, `verify_ciphertext`, has read and compared when it returns.
use rust_encryption.Common.{
  ℕ, zero, suc, ◌-◌, ◌≡◌, refl, sym, ap, ◌∙◌, not, min, some, ok, [], ◌∷◌, ◌++◌, arith, Bytes,
  length, append_assoc, append-nil, length-append, fail_if-passed, ok_or-passed, >>=-eq-ok,
  some-run-injective, run_some-passed, run_then-passed, run-injective, ◌==◌, fail_if, ok-injective,
  not_false→true, ok_or-eq-ok, not_ne→eq,
}
use rust_encryption.Threefish1024.Error.{
  invalid_format, io, authentication_failed, trailing_data, ciphertext_truncated, crypto_length,
}
use rust_encryption.Threefish1024.Deps.{Deps, DepsLaws, Exact, filled, unexpected_eof, failed}
use rust_encryption.Threefish1024.Stream.{
  io_buffer_len, authentication_domain, read, exact_format, read_exact_format, start_mac,
  verify_loop, check_tag, verify_ciphertext,
}

length-nil : (bs : Bytes) → length bs ≡ 0 → bs ≡ []
length-nil [] h = refl
length-nil (b ∷ bs) h = absurd (omega arith)

module _ (d : Deps) (l : DepsLaws d) where
  pub exact-content :
      (n : ℕ) (s s' : d.Source) (bs : Bytes)
      → read_exact_format d n s ≡ ok (s', bs)
      → (l.content s ≡ bs ++ l.content s') × (length bs ≡ n)
  exact-content n s s' bs h = go (d.read_exact n s) refl h
    where
      go :
          (r : Exact d.Source)
          → d.read_exact n s ≡ r
          → exact_format d r ≡ ok (s', bs)
          → (l.content s ≡ bs ++ l.content s') × (length bs ≡ n)
      go (filled s2 bs2) e h =
          let p = ok-injective h in
          l.exact_content n s s' bs (e ∙ ap (λ (q : d.Source × Bytes). filled q.0 q.1) p)
      go unexpected_eof e h = cc
      go failed e h = cc

  -- The tag is the MAC's value, and nothing stands behind it.
  pub check_tag-content :
      (s s' : d.Source) (mac : d.Mac)
      → check_tag d s mac ≡ ok s'
      → (l.content s ≡ d.mac_finalize mac) × (length (d.mac_finalize mac) ≡ 64)
  unfolding check_tag
  check_tag-content s s' mac h =
      let (supplied, e1, h1) = >>=-eq-ok (read_exact_format d 64 s) _ h in
      let (trailing, e2, h2) = ok_or-passed (d.read 1 supplied.0) (io "read") _ h1 in
      let (empty, h3) =
        fail_if-passed (not (length trailing.1 == 0)) (invalid_format trailing_data) _ h2 in
      let (verified, _) =
        fail_if-passed (not (d.mac_verify mac supplied.1)) authentication_failed _ h3 in
      let exact = exact-content 64 s supplied.0 supplied.1 e1 in
      let nothing = length-nil trailing.1 (not_ne→eq _ _ empty) in
      let ended =
        l.read_end 1 supplied.0 trailing.0 (omega arith)
          (e2 ∙ ap (λ (bs : Bytes). some (trailing.0, bs)) nothing) in
      let tag = (l.verify_iff mac supplied.1).0 (not_false→true _ verified) in
      (
        exact.0 ∙ ap (λ (t : Bytes). supplied.1 ++ t) ended ∙ append-nil supplied.1 ∙ sym tag,
        ap length tag ∙ exact.1,
      )

  pub verify_loop-content :
      (fuel : ℕ) (s s' : d.Source) (mac mac' : d.Mac) (n : ℕ)
      → verify_loop d fuel s mac n ≡ some (ok (s', mac'))
      → (c : Bytes) × (l.content s ≡ c ++ l.content s')
        × (length c ≡ n)
        × (mac' ≡ d.mac_update mac c)
  unfolding verify_loop
  verify_loop-content fuel s s' mac mac' zero h =
      let p = run-injective h in
      (
        [],
        ap (λ (q : d.Source × d.Mac). l.content q.0) p,
        refl,
        sym (ap (λ (q : d.Source × d.Mac). q.1) p) ∙ sym (l.update_nil mac),
      )
  verify_loop-content zero s s' mac mac' (suc n) h = cc
  verify_loop-content (suc fuel) s s' mac mac' (suc n) h =
      let (r, e1, h1) = run_some-passed (read d (min (suc n) io_buffer_len) s) _ h in
      let (_, e2, h2) =
        run_then-passed (some (fail_if (length r.1 == 0) (invalid_format ciphertext_truncated))) _
          h1 in
      let (c, whole, size, fed) =
        verify_loop-content fuel r.0 s' (d.mac_update mac r.1) mac' (suc n - length r.1) h2 in
      let got = l.read_content (min (suc n) io_buffer_len) s r.0 r.1 (ok_or-eq-ok _ _ e1) in
      (
        r.1 ++ c,
        got.0 ∙ ap (λ (t : Bytes). r.1 ++ t) whole ∙ sym (append_assoc r.1 c (l.content s')),
        length-append r.1 c ∙ omega arith,
        fed ∙ l.update_update mac r.1 c,
      )

  -- The ciphertext `c` and the tag that belongs to it and to the header, under the key.
  abbrev pub IsSealed : Bytes → Bytes → Bytes → Bytes → Type 0
  IsSealed content header key c =
      (m : d.Mac) × (d.mac_new key ≡ some m)
      × (content ≡ c ++ d.mac_finalize (d.mac_update m (authentication_domain ++ (header ++ c))))
      × (length (d.mac_finalize (d.mac_update m (authentication_domain ++ (header ++ c)))) ≡ 64)

  pub start_mac-eq-ok :
      (header key : Bytes) (mac : d.Mac)
      → start_mac d header key ≡ ok mac
      → (m : d.Mac) × (d.mac_new key ≡ some m)
        × (mac ≡ d.mac_update m (authentication_domain ++ header))
  unfolding start_mac
  start_mac-eq-ok header key mac h =
      let (m, e, q) = ok_or-passed (d.mac_new key) crypto_length _ h in
      (m, e, sym (ok-injective q) ∙ l.update_update m authentication_domain header)

  -- A start, what a loop fed, and the check of the tag make a sealed content.
  pub sealed :
      (header key c : Bytes) (s s' s'' : d.Source) (mac : d.Mac)
      → start_mac d header key ≡ ok mac
      → l.content s ≡ c ++ l.content s'
      → check_tag d s' (d.mac_update mac c) ≡ ok s''
      → IsSealed (l.content s) header key c
  sealed header key c s s' s'' mac started whole checked =
      let (m, made, fed) = start_mac-eq-ok header key mac started in
      let all : d.mac_update mac c ≡ d.mac_update m (authentication_domain ++ (header ++ c)) =
        ap (λ (t : d.Mac). d.mac_update t c) fed
        ∙ l.update_update m (authentication_domain ++ header) c
        ∙ ap (d.mac_update m) (append_assoc authentication_domain header c) in
      let (tail, size) = check_tag-content s' s'' (d.mac_update mac c) checked in
      (
        m,
        made,
        whole ∙ ap (λ (t : Bytes). c ++ t) (tail ∙ ap d.mac_finalize all),
        ap (λ (t : d.Mac). length (d.mac_finalize t)) (sym all) ∙ size,
      )

  -- Where the parameters keep their documented laws: when `verify_ciphertext` returns without an
  -- error, the input is a ciphertext of the stated length and then, up to the end, the 64 bytes of
  -- the MAC over the domain, the header and that ciphertext.
  pub verify_ciphertext-IsSealed :
      (s s' : d.Source) (n : ℕ) (header key : Bytes)
      → verify_ciphertext d s n header key ≡ some (ok s')
      → (c : Bytes) × IsSealed (l.content s) header key c × (length c ≡ n)
  unfolding verify_ciphertext
  verify_ciphertext-IsSealed s s' n header key h =
      let (mac, started, h1) = run_some-passed (start_mac d header key) _ h in
      let (r, looped, h2) = run_then-passed (verify_loop d n s mac n) _ h1 in
      let (c, whole, size, fed) = verify_loop-content n s r.0 mac r.1 n looped in
      (
        c,
        sealed header key c s r.0 s' mac started whole
            (ap (check_tag d r.0) (sym fed) ∙ some-run-injective h2),
        size,
      )
