-- ===== src/Otp/World.antt =====
-- The files that the `otp` crate works on, and the operations of the operating system that it calls:
-- a state of files, and errors that leave the files as they are at that point.
use mathlib.Core.Option
pub mod Rules
pub mod Passed
use rust_encryption.Common.{
  ℕ, ◌+◌, ◌-◌, Bool, true, false, Option, none, some, String, ◌++◌, ◌||◌, List, Bytes, length, take,
  drop, replicate, leb, [], ◌∷◌, ◌==◌, if◌then◌else◌, bytes_eq, Result, ok, err,
}
use rust_encryption.Common.Slices.{copy_at}
use rust_encryption.Common.Text.{codes}
use rust_encryption.Otp.Error.{OtpError, io, random}

-- The code points of a path.
abbrev pub FilePath : Type 0
FilePath = Bytes

-- Nothing, or a text that ends in a slash.
unfoldable pub needs_no_slash : FilePath → Bool
needs_no_slash [] = true
needs_no_slash (c ∷ []) = c == 47
needs_no_slash (c ∷ d ∷ cs) = needs_no_slash (d ∷ cs)

-- `Path::join` with a relative path, on Unix.
unfoldable pub join : FilePath → FilePath → FilePath
join base name = if needs_no_slash base then base ++ name else base ++ (codes "/" ++ name)

-- `Path::components` on Unix: the parts between slashes. Empty parts do not count, nor does `.` past
-- the beginning.
abbrev push_byte : ℕ → List Bytes → List Bytes
push_byte c [] = (c ∷ []) ∷ []
push_byte c (part ∷ parts) = (c ∷ part) ∷ parts

abbrev split_slashes : FilePath → List Bytes
split_slashes [] = [] ∷ []
split_slashes (c ∷ cs) = if c == 47 then [] ∷ split_slashes cs else push_byte c (split_slashes cs)

abbrev counted : List Bytes → Bytes
counted [] = []
counted (part ∷ parts) =
    if bytes_eq part [] || bytes_eq part (codes ".")
    then counted parts
    else part ++ (47 ∷ counted parts)

abbrev leading : List Bytes → Bytes
leading [] = []
leading (part ∷ parts) =
    if bytes_eq part (codes ".") then part ++ (47 ∷ counted parts) else counted (part ∷ parts)

-- The components, each followed by a slash, behind a slash for the root.
abbrev components : FilePath → Bytes
components path =
    if bytes_eq (take 1 path) (codes "/")
    then 47 ∷ leading (split_slashes path)
    else leading (split_slashes path)

-- `==` on `Path`
abbrev pub same_path : FilePath → FilePath → Bool
same_path first second = bytes_eq (components first) (components second)

pub data Kind : Type 0 where
  regular directory symlink : Kind

pub record Node : Type 0 where
  pub kind : Kind
  pub mode : ℕ
  pub bytes : Bytes

-- `clock` counts the operations so far.
pub record World : Type 0 where
  pub files : FilePath → Option Node
  pub clock : ℕ

-- What the code calls and does not contain. `succeeds n` says whether the operation number `n` of the
-- operating system succeeds; one that fails changes nothing. `resolve` is the file that a path leads
-- to, by one name where there are several links to it; `fill n size` is the outcome of a random source at operation `n`; `variable` is the value of an
-- environment variable.
pub record Env : Type 0 where
  pub succeeds : ℕ → Bool
  pub resolve : FilePath → FilePath
  pub has_file_name : FilePath → Bool
  pub fill : ℕ → ℕ → Option Bytes
  pub sha256 : Bytes → Bytes
  pub hmac : Bytes → Bytes → Bytes
  pub variable : String → Option Bytes

abbrev pub M : Type 0 → Type 0
M A = World → Result OtpError A × World

abbrev pub after :
    {A B : Type 0} → Result OtpError A × World → (A → M B) → Result OtpError B × World
after (ok value, w) next = next value w
after (err failure, w) next = (err failure, w)

infixl 5 ◌>>=◌ ◌>>◌
unfoldable pub ◌>>=◌ : {A B : Type 0} → M A → (A → M B) → M B
◌>>=◌ m next w = after (m w) next

abbrev pub ◌>>◌ : {B : Type 0} → M (Unit {0}) → M B → M B
check >> next = check >>= λ (_ : Unit {0}). next

-- A result that needs no files.
unfoldable pub lift : {A : Type 0} → Result OtpError A → M A
lift r w = (r, w)

abbrev pub pure : {A : Type 0} → A → M A
pure value = lift (ok value)

unfoldable pub look : FilePath → M (Option Node)
look path w = (ok (w.files path), w)

abbrev pub put_file : FilePath → Node → (FilePath → Option Node) → FilePath → Option Node
put_file path node files q = if bytes_eq path q then some node else files q

unfoldable pub put : FilePath → Node → M (Unit {0})
put path node w = (ok tt, record w { files = put_file path node w.files })

-- An open file, and the place in it.
pub record Handle : Type 0 where
  pub node : FilePath
  pub pos : ℕ

abbrev pub found : OtpError → Option Node → M Node
found failure none = lift (err failure)
found failure (some node) = pure node

abbrev pub filled : Option Bytes → Result OtpError Bytes
filled none = err (random "the random source failed")
filled (some bytes) = ok bytes

module _ (env : Env) where
  -- One operation of the operating system: whether it succeeds.
  unfoldable pub attempt : M Bool
  attempt w = (ok (env.succeeds w.clock), record w { clock = w.clock + 1 })

  unfoldable pub tick : String → M (Unit {0})
  tick action = attempt >>= λ success. lift (if success then ok tt else err (io action))

  unfoldable pub symlink_metadata : String → FilePath → M (Option Node)
  symlink_metadata action path = do tick action; look path

  unfoldable pub open_file : String → FilePath → M Handle
  open_file action path = do
    tick action
    node ← look (env.resolve path)
    _ ← found (io action) node
    pure (record { node = env.resolve path; pos = 0 })

  -- The node of an open file: no other program removes it.
  unfoldable pub metadata : String → Handle → M Node
  metadata action handle = do tick action; node ← look handle.node; found (io action) node

  unfoldable pub seek : String → ℕ → Handle → M Handle
  seek action pos handle = do tick action; pure (record handle { pos = pos })

  -- `read_exact`, with the error for an end of the file that comes too early.
  unfoldable pub read_exact : OtpError → String → ℕ → Handle → M (Bytes × Handle)
  read_exact at_end action n handle = do
    node ← metadata action handle
    lift (
        if leb (handle.pos + n) (length node.bytes)
        then ok (take n (drop handle.pos node.bytes), record handle { pos = handle.pos + n })
        else err at_end)

  unfoldable pub write_all : String → Bytes → Handle → M Handle
  write_all action bytes handle = do
    node ← metadata action handle
    put handle.node (record node { bytes = copy_at handle.pos bytes node.bytes })
    pure (record handle { pos = handle.pos + length bytes })

  -- `fill` of a random source.
  unfoldable pub random_bytes : ℕ → M Bytes
  random_bytes size w = (filled (env.fill w.clock size), record w { clock = w.clock + 1 })
