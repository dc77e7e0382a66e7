-- ===== src/Otp/Kept.antt =====
-- What is in place after the parts of a program that removes no file.
use rust_encryption.Common.{
  true, false, Option, none, some, Option, bytes_eq_refl, Result, ok, err, ◌≡◌, refl, sym, ap, ◌∙◌,
  inl, inr, Bool-cases,
}
use rust_encryption.Otp.Error.{OtpError}
use rust_encryption.Otp.Files.{vacant}
use rust_encryption.Otp.World.{FilePath, Node, World, M, ◌>>=◌, put, put_file}
use rust_encryption.Otp.World.Rules.{Files, there, Grows, >>=-passed}
use rust_encryption.Otp.World.Passed.{value-passed}

-- What a program that removes no file ends with.
pub ends_with :
    {A : Type 0} {m : M A} (path : FilePath) (w : World) {a : A} {w1 : World}
    → m w ≡ (ok a, w1)
    → Grows m
    → there (w.files path) ≡ true
    → there (w1.files path) ≡ true
ends_with path w h grows k =
    sym (ap (λ (r : Result OtpError _ × World). there (r.1.files path)) h) ∙ grows.keeps w path k

pub was_there :
    {A : Type 0} {m : M A} (path : FilePath) (w : World) {a : A} {w1 : World}
    → m w ≡ (ok a, w1)
    → Grows m
    → there (w1.files path) ≡ false
    → there (w.files path) ≡ false
was_there path w h grows k = elim (Bool-cases (there (w.files path))) [
  | inl yes_there ↦ let later = ends_with path w h grows yes_there in cc
  | inr not_there ↦ not_there
]

-- A first part, and what it left in place.
pub grown-passed :
    {A B : Type 0} (m : M A) {f : A → M B} (path : FilePath) (w : World) {b : B} {w2 : World}
    → (m >>= f) w ≡ (ok b, w2)
    → ((a : A) → Grows (f a))
    → (a : A) × (w1 : World) × (m w ≡ (ok a, w1))
      × (there (w1.files path) ≡ true → there (w2.files path) ≡ true)
grown-passed m {f} path w h grows =
    let step = >>=-passed m f w h in
    (step.0, step.1, step.2, ends_with path step.1 step.3 (grows step.0))

pub vacant-passed :
    {B : Type 0} (e : OtpError) (o : Option Node) (f : Unit {0} → M B) (w : World) {b : B}
    {w1 : World}
    → (vacant e o >>= f) w ≡ (ok b, w1)
    → (there o ≡ false) × (f tt w ≡ (ok b, w1))
vacant-passed e none f w h = let r = value-passed (ok tt) f w h in (refl, r.2)
vacant-passed e (some node) f w h = let r = value-passed (err e) f w h in cc

put_file-there :
    (path : FilePath) (node : Node) (files : Files) → there (put_file path node files path) ≡ true
put_file-there path node files = rw (bytes_eq_refl path)

pub put-there :
    (path : FilePath) (node : Node) (w : World) {u : Unit {0}} {w1 : World}
    → put path node w ≡ (ok u, w1)
    → there (w1.files path) ≡ true
unfolding put
put-there path node w h =
    sym (ap (λ (r : Result OtpError (Unit {0}) × World). there (r.1.files path)) h)
    ∙ put_file-there path node w.files
