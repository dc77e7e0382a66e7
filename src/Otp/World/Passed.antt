-- ===== src/Otp/World/Passed.antt =====
-- What holds where an operation on files has succeeded: the parts that ran, and what they read.
use rust_encryption.Common.{
  ℕ, ◌+◌, Bool, true, false, Option, none, some, Bytes, String, if◌then◌else◌, Result, ok, err, ◌≡◌,
  refl, sym, ap, ◌∙◌, take, drop, length, leb, fail_if, ◌≤◌, arith, leb→le, ok-injective,
}
use rust_encryption.Otp.Error.{OtpError, io}
use rust_encryption.Otp.World.{
  FilePath, Node, World, Env, M, Handle, ◌>>=◌, lift, pure, look, put, put_file, found, open_file,
  metadata, seek, read_exact,
}
use rust_encryption.Otp.World.Rules.{
  Files, Reads, >>=-passed, Reads-tick, Reads-metadata, Reads-seek, Reads-read_exact,
}

-- A first part that only reads.
pub read-passed :
    {A B : Type 0} {m : M A}
    → Reads m
    → (f : A → M B) (w : World) {b : B} {w2 : World} → (m >>= f) w ≡ (ok b, w2)
    → (a : A) × (w1 : World) × (m w ≡ (ok a, w1)) × (f a w1 ≡ (ok b, w2)) × (w1.files ≡ w.files)
read-passed {m} reads f w h =
    let step = >>=-passed m f w h in
    (
      step.0,
      step.1,
      step.2,
      step.3,
      sym (ap (λ (r : Result OtpError _ × World). r.1.files) step.2) ∙ reads.files_eq w,
    )

pub lift-passed :
    {A : Type 0} (r : Result OtpError A) (w : World) {a : A} {w1 : World}
    → lift r w ≡ (ok a, w1)
    → (r ≡ ok a) × (w1 ≡ w)
unfolding lift
lift-passed r w h = (ap (λ p. p.0) h, sym (ap (λ p. p.1) h))

pub check-passed :
    {B : Type 0} (b : Bool) (e : OtpError) (f : Unit {0} → M B) (w : World) {a : B} {w1 : World}
    → (lift (fail_if b e) >>= f) w ≡ (ok a, w1)
    → (b ≡ false) × (f tt w ≡ (ok a, w1))
unfolding ◌>>=◌ lift
check-passed true e f w h = cc
check-passed false e f w h = (refl, h)

pub value-passed :
    {A B : Type 0} (r : Result OtpError A) (f : A → M B) (w : World) {b : B} {w1 : World}
    → (lift r >>= f) w ≡ (ok b, w1)
    → (a : A) × (r ≡ ok a) × (f a w ≡ (ok b, w1))
unfolding ◌>>=◌ lift
value-passed (err e) f w h = cc
value-passed (ok a) f w h = (a, refl, h)

pub look-passed :
    {B : Type 0} (path : FilePath) (f : Option Node → M B) (w : World) {b : B} {w1 : World}
    → (look path >>= f) w ≡ (ok b, w1)
    → f (w.files path) w ≡ (ok b, w1)
unfolding ◌>>=◌ look
look-passed path f w h = h

pub put-passed :
    {B : Type 0} (path : FilePath) (node : Node) (f : Unit {0} → M B) (w : World) {b : B}
    {w1 : World}
    → (put path node >>= f) w ≡ (ok b, w1)
    → f tt (record w { files = put_file path node w.files }) ≡ (ok b, w1)
unfolding ◌>>=◌ put
put-passed path node f w h = h

pub pure-passed :
    {A : Type 0} (value : A) (w : World) {a : A} {w1 : World}
    → pure value w ≡ (ok a, w1)
    → (value ≡ a) × (w1 ≡ w)
pure-passed value w h = let r = lift-passed (ok value) w h in (ok-injective r.0, r.1)

found-passed :
    (e : OtpError) (o : Option Node) (w : World) {node : Node} {w1 : World}
    → found e o w ≡ (ok node, w1)
    → (o ≡ some node) × (w1 ≡ w)
found-passed e none w h = let r = lift-passed (err e) w h in cc
found-passed e (some n) w h = let r = pure-passed n w h in (ap some r.0, r.1)

-- The result of a test.
if-passed :
    {A : Type 0} (b : Bool) (value : A) (e : OtpError) (w : World) {a : A} {w1 : World}
    → lift (if b then ok value else err e) w ≡ (ok a, w1)
    → (a ≡ value) × (b ≡ true)
if-passed true value e w h = (sym (pure-passed value w h).0, refl)
if-passed false value e w h = let r = lift-passed (err e) w h in cc

-- The same as steps of a proof: what is shown from the rest of the program holds. `base` is the
-- files at the start, which nothing has changed yet.
pub by_reading :
    {A B G : Type 0} {m : M A} {f : A → M B} {w : World} {base : Files} {b : B} {w2 : World}
    → Reads m
    → w.files ≡ base
    → (m >>= f) w ≡ (ok b, w2)
    → ((a : A) (w1 : World) → m w ≡ (ok a, w1) → w1.files ≡ base → f a w1 ≡ (ok b, w2) → G)
    → G
by_reading {f} {w} reads same h rest =
    let step = read-passed reads f w h in rest step.0 step.1 step.2 (step.4 ∙ same) step.3

-- The same where it is known what the first part gives.
pub by_knowing :
    {A B G : Type 0} {m : M A} (f : A → M B) (w : World) (value : A) {base : Files} {b : B}
    {w2 : World}
    → Reads m
    → ((a : A) (w1 : World) → m w ≡ (ok a, w1) → a ≡ value)
    → w.files ≡ base
    → (m >>= f) w ≡ (ok b, w2)
    → ((w1 : World) → w1.files ≡ base → f value w1 ≡ (ok b, w2) → G)
    → G
by_knowing f w value reads known same h rest =
    let step = read-passed reads f w h in
    rest step.1 (step.4 ∙ same) (ap (λ a. f a step.1) (sym (known step.0 step.1 step.2)) ∙ step.3)

pub by_checking :
    {B G : Type 0} {b : Bool} (e : OtpError) (f : Unit {0} → M B) {w : World} {a : B} {w1 : World}
    → (lift (fail_if b e) >>= f) w ≡ (ok a, w1)
    → (b ≡ false → f tt w ≡ (ok a, w1) → G)
    → G
by_checking {b} e f {w} h rest = let step = check-passed b e f w h in rest step.0 step.1

pub by_value :
    {A B G : Type 0} {r : Result OtpError A} (f : A → M B) {w : World} {b : B} {w1 : World}
    → (lift r >>= f) w ≡ (ok b, w1)
    → ((a : A) → r ≡ ok a → f a w ≡ (ok b, w1) → G)
    → G
by_value {r} f {w} h rest = let step = value-passed r f w h in rest step.0 step.1 step.2

abbrev pub node_or : Node → Option Node → Node
node_or node none = node
node_or node (some n) = n

module _ (env : Env) where
  pub metadata-passed :
      (action : String) (handle : Handle) (w : World) {node : Node} {w1 : World}
      → metadata env action handle w ≡ (ok node, w1)
      → w.files handle.node ≡ some node
  unfolding metadata
  metadata-passed action handle w h =
      let ticked = read-passed (Reads-tick env action) _ w h in
      let looked = look-passed handle.node _ ticked.1 ticked.3 in
      ap (λ (files : Files). files handle.node) (sym ticked.4)
      ∙ (found-passed (io action) (ticked.1.files handle.node) ticked.1 looked).0

  pub seek-passed :
      (action : String) (pos : ℕ) (handle : Handle) (w : World) {moved : Handle} {w1 : World}
      → seek env action pos handle w ≡ (ok moved, w1)
      → record handle { pos = pos } ≡ moved
  unfolding seek
  seek-passed action pos handle w h =
      let ticked = read-passed (Reads-tick env action) _ w h in (pure-passed _ ticked.1 ticked.3).0

  pub read_exact-passed :
      (at_end : OtpError) (action : String) (n : ℕ) (handle : Handle) (w : World)
      {got : Bytes × Handle} {w1 : World}
      → read_exact env at_end action n handle w ≡ (ok got, w1)
      → (node : Node) × (w.files handle.node ≡ some node)
        × (got ≡ (take n (drop handle.pos node.bytes), record handle { pos = handle.pos + n }))
        × (handle.pos + n ≤ length node.bytes)
  unfolding read_exact
  read_exact-passed at_end action n handle w h =
      let opened = read-passed (Reads-metadata env action handle) _ w h in
      let result =
        if-passed (leb (handle.pos + n) (length opened.0.bytes)) _ at_end opened.1 opened.3 in
      (
        opened.0,
        metadata-passed action handle w opened.2,
        result.0,
        leb→le (handle.pos + n) (length opened.0.bytes) result.1,
      )

  pub open_file-passed :
      (action : String) (path : FilePath) (w : World) {handle : Handle} {w1 : World}
      → open_file env action path w ≡ (ok handle, w1)
      → record { node = env.resolve path; pos = 0 } ≡ handle
  unfolding open_file
  open_file-passed action path w h =
      let ticked = read-passed (Reads-tick env action) _ w h in
      let looked = look-passed (env.resolve path) _ ticked.1 ticked.3 in
      let there = >>=-passed (found (io action) _) _ ticked.1 looked in
      (pure-passed _ there.1 there.3).0

  -- A read that succeeded: what it gave, and that the file has so many bytes.
  pub by_read_exact :
      {B G : Type 0} (at_end : OtpError) (action : String) (n : ℕ) (handle : Handle)
      (f : Bytes × Handle → M B) (w : World) {base : Files} (node : Node) {b : B} {w2 : World}
      → w.files ≡ base
      → base handle.node ≡ some node
      → (read_exact env at_end action n handle >>= f) w ≡ (ok b, w2)
      → ((w1 : World)
          → w1.files ≡ base
          → handle.pos + n ≤ length node.bytes
          → f (take n (drop handle.pos node.bytes), record handle { pos = handle.pos + n }) w1
            ≡ (ok b, w2)
          → G)
      → G
  by_read_exact at_end action n handle f w node same there h rest =
      let step = read-passed (Reads-read_exact env at_end action n handle) f w h in
      let read = read_exact-passed at_end action n handle w step.2 in
      let node_eq : read.0 ≡ node =
        ap (node_or node) (sym read.1 ∙ (ap (λ (fs : Files). fs handle.node) same ∙ there)) in
      rest step.1 (step.4 ∙ same) (omega (arith, read.3, ap (λ (m : Node). length m.bytes) node_eq))
        (ap (λ (r : Bytes × Handle). f r step.1)
            (sym (
              read.2
              ∙ ap
                  (λ (m : Node).
                    (take n (drop handle.pos m.bytes), record handle { pos = handle.pos + n }))
                  node_eq))
          ∙ step.3)

  -- A step to a place of a file.
  pub by_seek :
      {B G : Type 0} (action : String) (pos : ℕ) (handle : Handle) (f : Handle → M B) (w : World)
      {base : Files} {b : B} {w2 : World}
      → w.files ≡ base
      → (seek env action pos handle >>= f) w ≡ (ok b, w2)
      → ((w1 : World) → w1.files ≡ base → f (record handle { pos = pos }) w1 ≡ (ok b, w2) → G)
      → G
  by_seek action pos handle f w same h rest =
      let step = read-passed (Reads-seek env action pos handle) f w h in
      rest step.1 (step.4 ∙ same)
        (ap (λ (moved : Handle). f moved step.1) (seek-passed action pos handle w step.2) ∙ step.3)
