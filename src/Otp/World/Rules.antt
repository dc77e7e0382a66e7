-- ===== src/Otp/World/Rules.antt =====
-- What the operations on files do to the files: `Reads` ones leave them as they are, `Grows` ones
-- remove none. Both hold of a program when they hold of its parts.
use rust_encryption.Common.{
  ℕ, Bool, true, false, Option, none, some, Bytes, String, Result, ok, err, ◌≡◌, refl, ap, ◌∙◌, ◌⊎◌,
  inl, inr, arith,
}
use rust_encryption.Otp.Error.{OtpError}
use rust_encryption.Otp.World.{
  FilePath, Node, World, Env, M, Handle, after, ◌>>=◌, lift, look, put, put_file, found, attempt,
  tick, symlink_metadata, open_file, metadata, seek, read_exact, write_all, random_bytes,
}

abbrev pub Files : Type 0
Files = FilePath → Option Node

-- Whether a file is there.
abbrev pub there : Option Node → Bool
there none = false
there (some node) = true

-- The ways that a program can end.
pub M-cases :
    {A : Type 0} (r : Result OtpError A × World)
    → ((value : A) × (w : World) × (r ≡ (ok value, w)))
      ⊎ ((failure : OtpError) × (w : World) × (r ≡ (err failure, w)))
M-cases (ok value, w) = inl (value, w, refl)
M-cases (err failure, w) = inr (failure, w, refl)

-- The second part of a program that succeeds ran where the first part ended.
after-passed :
    {A B : Type 0} (r : Result OtpError A × World) (f : A → M B) {b : B} {w2 : World}
    → after r f ≡ (ok b, w2)
    → (a : A) × (w1 : World) × (r ≡ (ok a, w1)) × (f a w1 ≡ (ok b, w2))
after-passed (ok a, w1) f h = (a, w1, refl, h)
after-passed (err failure, w1) f h = cc

pub >>=-passed :
    {A B : Type 0} (m : M A) (f : A → M B) (w : World) {b : B} {w2 : World}
    → (m >>= f) w ≡ (ok b, w2)
    → (a : A) × (w1 : World) × (m w ≡ (ok a, w1)) × (f a w1 ≡ (ok b, w2))
unfolding ◌>>=◌
>>=-passed m f w h = after-passed (m w) f h

pub record Reads {A : Type 0} (m : M A) : Type 0 where
  pub files_eq : (w : World) → (m w).1.files ≡ w.files

abbrev pub Keeps : Files → Files → Type 0
Keeps files files' = (path : FilePath) → there (files path) ≡ true → there (files' path) ≡ true

pub record Grows {A : Type 0} (m : M A) : Type 0 where
  pub keeps : (w : World) → Keeps w.files (m w).1.files

pub Reads-Grows : {A : Type 0} {m : M A} → Reads m → Grows m
Reads-Grows h = record {
  keeps = λ w path k. ap (λ (files : Files). there (files path)) (h.files_eq w) ∙ k;
}

after-files_eq :
    {A B : Type 0} (r : Result OtpError A × World) (f : A → M B)
    → ((a : A) → Reads (f a))
    → (after r f).1.files ≡ r.1.files
after-files_eq (ok a, w) f h = (h a).files_eq w
after-files_eq (err failure, w) f h = refl

pub Reads->>= :
    {A B : Type 0} {m : M A} {f : A → M B} → Reads m → ((a : A) → Reads (f a)) → Reads (m >>= f)
unfolding ◌>>=◌
Reads->>= {m} {f} h k = record { files_eq = λ w. after-files_eq (m w) f k ∙ h.files_eq w }

after-Keeps :
    {A B : Type 0} (r : Result OtpError A × World) (f : A → M B)
    → ((a : A) → Grows (f a))
    → Keeps r.1.files (after r f).1.files
after-Keeps (ok a, w) f h = (h a).keeps w
after-Keeps (err failure, w) f h = λ path k. k

pub Grows->>= :
    {A B : Type 0} {m : M A} {f : A → M B} → Grows m → ((a : A) → Grows (f a)) → Grows (m >>= f)
unfolding ◌>>=◌
Grows->>= {m} {f} h k = record {
  keeps = λ w path there_then. after-Keeps (m w) f k path (h.keeps w path there_then);
}

-- The two rules in one, for long programs whose last part writes.
pub Grows-Reads_first :
    {A B : Type 0} {m : M A} {f : A → M B} → Reads m → ((a : A) → Grows (f a)) → Grows (m >>= f)
Grows-Reads_first h k = Grows->>= (Reads-Grows h) k

pub Reads-lift : {A : Type 0} (r : Result OtpError A) → Reads (lift r)
unfolding lift
Reads-lift r = record { files_eq = λ w. refl }

pub Reads-look : (path : FilePath) → Reads (look path)
unfolding look
Reads-look path = record { files_eq = λ w. refl }

put_file-Keeps :
    (path : FilePath) (node : Node) (files : Files) → Keeps files (put_file path node files)
put_file-Keeps path node files q h = ground arith

pub Grows-put : (path : FilePath) (node : Node) → Grows (put path node)
unfolding put
Grows-put path node = record { keeps = λ w. put_file-Keeps path node w.files }

pub Reads-found : (failure : OtpError) (o : Option Node) → Reads (found failure o)
Reads-found failure none = Reads-lift _
Reads-found failure (some node) = Reads-lift _

pub ruleset reads = (Reads->>=, Reads-lift, Reads-look, Reads-found)

module _ (env : Env) where
  pub Reads-attempt : Reads (attempt env)
  unfolding attempt
  Reads-attempt = record { files_eq = λ w. refl }

  pub Reads-tick : (action : String) → Reads (tick env action)
  unfolding tick
  Reads-tick action = search (reads, Reads-attempt)

  pub Reads-symlink_metadata :
      (action : String) (path : FilePath) → Reads (symlink_metadata env action path)
  unfolding symlink_metadata
  Reads-symlink_metadata action path = search (reads, Reads-tick)

  pub Reads-open_file : (action : String) (path : FilePath) → Reads (open_file env action path)
  unfolding open_file
  Reads-open_file action path = search (reads, Reads-tick)

  pub Reads-metadata : (action : String) (handle : Handle) → Reads (metadata env action handle)
  unfolding metadata
  Reads-metadata action handle = search (reads, Reads-tick)

  pub Reads-seek :
      (action : String) (pos : ℕ) (handle : Handle) → Reads (seek env action pos handle)
  unfolding seek
  Reads-seek action pos handle = search (reads, Reads-tick)

  pub Reads-read_exact :
      (at_end : OtpError) (action : String) (n : ℕ) (handle : Handle)
      → Reads (read_exact env at_end action n handle)
  unfolding read_exact
  Reads-read_exact at_end action n handle = search (reads, Reads-metadata)

  pub Grows-write_all :
      (action : String) (bytes : Bytes) (handle : Handle)
      → Grows (write_all env action bytes handle)
  unfolding write_all
  Grows-write_all action bytes handle =
      search (Grows->>=, Grows-put, Reads-Grows, Reads-lift, Reads-metadata)

  pub Reads-random_bytes : (size : ℕ) → Reads (random_bytes env size)
  unfolding random_bytes
  Reads-random_bytes size = record { files_eq = λ w. refl }
