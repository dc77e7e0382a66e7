-- ===== src/Otp/Content/Marking.antt =====
-- otp/src/lib.rs: `reserve_usage` and `mark_pad_consumed` change no other file, and of the pad
-- only the mark.
use rust_encryption.Common.{
  String, ◌+◌, ◌≡◌, refl, sym, ap, ◌∙◌, [], ◌∷◌, Bytes, length, true, false, inl, inr, Bool-cases,
  Option, some, none, ok, Result, bytes_eq, bytes_eq→eq, bytes_eq_refl,
}
use rust_encryption.Common.Slices.{copy_at}
use rust_encryption.Otp.Error.{OtpError, pad_already_used}
use rust_encryption.Otp.Role.{PadRole}
use rust_encryption.Otp.Files.{is_regular}
use rust_encryption.Otp.Ledger.{
  ledger_path, made_directory, ensure_state_directory, create_new, reserve_usage,
}
use rust_encryption.Otp.Pad.{mark_pad_consumed}
use rust_encryption.Otp.World.{
  FilePath, Node, World, Env, M, Handle, ◌>>=◌, ◌>>◌, put, put_file, write_all,
}
use rust_encryption.Otp.World.Rules.{Files, there, >>=-passed, Reads-tick, Reads-metadata}
use rust_encryption.Otp.Reading.{Reads-sync_parent}
use rust_encryption.Otp.Kept.{vacant-passed}
use rust_encryption.Otp.World.Passed.{
  by_reading, by_knowing, by_checking, by_seek, put-passed, pure-passed, metadata-passed,
  look-passed, check-passed,
}
use rust_encryption.Otp.Content.Publish.{put_file-same, Reads-end, node_eq}

pub put_file-other :
    (path q : FilePath) (node : Node) (files : Files)
    → bytes_eq path q ≡ false
    → put_file path node files q ≡ files q
put_file-other path q node files h = rw h

-- A regular file at a path.
abbrev pub IsRegularAt : Files → FilePath → Node → Type 0
IsRegularAt files path node = (files path ≡ some node) × (is_regular node.kind ≡ true)

pub differs : (p q : FilePath) → (p ≡ q → ⊥) → bytes_eq p q ≡ false
differs p q h = elim (Bool-cases (bytes_eq p q)) [
  | inl e ↦ absurd (h (bytes_eq→eq p q e))
  | inr e ↦ e
]

bytes_eq-swap : (p q : FilePath) → bytes_eq p q ≡ false → bytes_eq q p ≡ false
bytes_eq-swap p q h = differs q p (λ e. let same = ap (bytes_eq p) e ∙ bytes_eq_refl p in cc)

-- The two nodes at one path are one.
pub is_regular_at :
    {o : Option Node} (node seen : Node)
    → o ≡ some node
    → o ≡ some seen
    → is_regular seen.kind ≡ true
    → is_regular node.kind ≡ true
is_regular_at node seen h k one =
    ap (λ (n : Node). is_regular n.kind) (node_eq node seen (sym h ∙ k)) ∙ one

-- Two open files that are not one.
pub other :
    (p q in_node pad_node : FilePath)
    → in_node ≡ p
    → pad_node ≡ q
    → bytes_eq p q ≡ false
    → bytes_eq pad_node in_node ≡ false
other p q in_node pad_node h k differ =
    ap (bytes_eq pad_node) h ∙ (ap (λ x. bytes_eq x p) k ∙ bytes_eq-swap p q differ)

made_directory-keeps :
    (dir path : FilePath) (there : Option Node) (node : Node) (w : World) {made : Node} {w1 : World}
    → w.files dir ≡ there
    → IsRegularAt w.files path node
    → made_directory dir there w ≡ (ok made, w1)
    → (w1.files path ≡ some node) × (bytes_eq dir path ≡ false)
made_directory-keeps dir path none node w same h ran =
    let other =
      differs dir path (λ e. let gone = ap w.files (sym e) ∙ same in let found = h.0 in cc) in
    let written = put-passed dir _ _ w ran in
    (
      ap (λ (w : World). w.files path) (pure-passed _ _ written).1
          ∙ (put_file-other dir path _ w.files other ∙ h.0),
      other,
    )
made_directory-keeps dir path (some found) node w same h ran =
    let passed = check-passed (is_regular found.kind) _ _ w ran in
    (
      ap (λ (w : World). w.files path) (pure-passed found w passed.1).1 ∙ h.0,
      differs dir path (λ e.
          let same_node = node_eq found node (sym same ∙ (ap w.files e ∙ h.0)) in
          let is_one = ap (λ (n : Node). is_regular n.kind) same_node ∙ h.1 in
          let is_none = passed.0 in cc),
    )

put-files :
    (path : FilePath) (node : Node) (w : World) {u : Unit {0}} {w1 : World}
    → put path node w ≡ (ok u, w1)
    → w1.files ≡ put_file path node w.files
unfolding put
put-files path node w h = sym (ap (λ (r : Result OtpError (Unit {0}) × World). r.1.files) h)

-- A regular file stays where the last step writes another one.
pub put-keeps :
    (path q : FilePath) (node kept : Node) (w : World) {u : Unit {0}} {w1 : World}
    → bytes_eq path q ≡ false
    → w.files q ≡ some kept
    → put path node w ≡ (ok u, w1)
    → w1.files q ≡ some kept
put-keeps path q node kept w other h ran =
    ap (λ (fs : Files). fs q) (put-files path node w ran)
    ∙ (put_file-other path q node w.files other ∙ h)

module _ (env : Env) where
  ensure_state_directory-keeps :
      (dir path : FilePath) (node : Node) (w : World) {u : Unit {0}} {w1 : World}
      → IsRegularAt w.files path node
      → ensure_state_directory env dir w ≡ (ok u, w1)
      → w1.files path ≡ some node
  unfolding ensure_state_directory
  ensure_state_directory-keeps dir path node w h ran =
      by_reading (Reads-tick env _) refl ran λ _ w2 _ same ran.
        let looked = look-passed dir _ w2 ran in
        let made = >>=-passed _ _ w2 looked in
        let keeps =
          made_directory-keeps dir path (w2.files dir) node w2 refl
            (ap (λ (fs : Files). fs path) same ∙ h.0, h.1) made.2 in
        by_reading (Reads-tick env _) refl made.3 λ _ w3 _ same ran.
          by_checking _ _ ran λ is_dir ran.
            by_reading (Reads-tick env _) same ran λ _ w4 _ same ran.
              put-keeps dir path _ node w4 keeps.1 (ap (λ (fs : Files). fs path) same ∙ keeps.0) ran

  create_new-keeps :
      (new path : FilePath) (node : Node) (w : World) {u : Unit {0}} {w1 : World}
      → w.files path ≡ some node
      → create_new env new w ≡ (ok u, w1)
      → (w1.files path ≡ some node) × (bytes_eq new path ≡ false)
  unfolding create_new
  create_new-keeps new path node w h ran = by_reading (Reads-tick env _) refl ran λ _ w2 _ same ran.
      let looked = look-passed new _ w2 ran in
      let free = vacant-passed pad_already_used (w2.files new) _ w2 looked in
      let other = differs new path (λ e.
        let found = ap there (ap w2.files e ∙ (ap (λ (fs : Files). fs path) same ∙ h)) in
        let vacant_there = free.0 in cc) in
      (put-keeps new path _ node w2 other (ap (λ (fs : Files). fs path) same ∙ h) free.1, other)

  pub reserve_usage-keeps :
      (dir : FilePath) (id : Bytes) (role : PadRole) (path : FilePath) (node : Node) (w : World)
      {u : Unit {0}} {w1 : World}
      → IsRegularAt w.files path node
      → reserve_usage env dir id role w ≡ (ok u, w1)
      → w1.files path ≡ some node
  unfolding reserve_usage
  reserve_usage-keeps dir id role path node w h ran =
      let ensured = >>=-passed _ _ w ran in
      let kept = ensure_state_directory-keeps dir path node w h ensured.2 in
      let created = >>=-passed _ _ ensured.1 ensured.3 in
      let kept = create_new-keeps (ledger_path dir id role) path node ensured.1 kept created.2 in
      by_reading (Reads-tick env _) refl created.3 λ _ w2 _ same ran.
        let written = >>=-passed _ _ w2 ran in
        let kept =
          put-keeps (ledger_path dir id role) path _ node w2 kept.1
            (ap (λ (fs : Files). fs path) same ∙ kept.0) written.2 in
        by_reading (Reads-tick env _) refl written.3 λ _ w3 _ same ran.
          ap (λ (fs : Files). fs path) (Reads-end (Reads-sync_parent env _) ran ∙ same) ∙ kept

  write_all-writes :
      (action : String) (bytes : Bytes) (file : Handle) (node : Node) (w : World) (base : Files)
      {moved : Handle} {w1 : World}
      → w.files ≡ base
      → base file.node ≡ some node
      → write_all env action bytes file w ≡ (ok moved, w1)
      → (moved ≡ record file { pos = file.pos + length bytes })
        × (w1.files
            ≡ put_file file.node (record node { bytes = copy_at file.pos bytes node.bytes }) base)
  unfolding write_all
  write_all-writes action bytes file node w base same h ran =
      by_knowing _ w node (Reads-metadata env _ _)
        (λ n w2 got. node_eq n node (
          sym (metadata-passed env action file w got)
          ∙ (ap (λ (fs : Files). fs file.node) same ∙ h)))
        same ran
        λ w2 same ran.
          let last = pure-passed _ _ (put-passed file.node _ _ w2 ran) in
          (
            sym last.0,
            ap (λ (w : World). w.files) last.1
                ∙ ap
                    (put_file file.node (record node { bytes = copy_at file.pos bytes node.bytes }))
                    same,
          )

  -- The pad gets its mark, and nothing else changes.
  pub mark_pad_consumed-marks :
      (file : Handle) (node : Node) (w : World) (base : Files) {file' : Handle} {w1 : World}
      → w.files ≡ base
      → base file.node ≡ some node
      → mark_pad_consumed env file w ≡ (ok file', w1)
      → (file'.node ≡ file.node)
        × (w1.files
            ≡ put_file file.node (record node { bytes = copy_at 17 (1 ∷ []) node.bytes }) base)
  unfolding mark_pad_consumed
  mark_pad_consumed-marks file node w base same h ran =
      by_seek env _ _ _ _ _ same ran λ w2 same ran.
        let written = >>=-passed _ _ w2 ran in
        let marked =
          write_all-writes _ (1 ∷ []) (record file { pos = 17 }) node w2 base same h written.2 in
        by_reading (Reads-tick env _) refl written.3 λ _ w3 _ same ran.
          by_reading (Reads-tick env _) same ran λ _ w4 _ same ran.
            let last = pure-passed _ w4 ran in
            (
              ap (λ (f : Handle). f.node) (sym last.0) ∙ ap (λ (f : Handle). f.node) marked.0,
              ap (λ (w : World). w.files) last.1 ∙ (same ∙ marked.1),
            )

  -- The pad is reserved and marked: what the rest of the program finds.
  pub by_spending :
      {B G : Type 0} (dir : FilePath) (id : Bytes) (role : PadRole) (key : Handle)
      (f : Handle → M B) (input : Handle) (w : World) (base : Files) (text pad : Node) {b : B}
      {w2 : World}
      → w.files ≡ base
      → IsRegularAt base input.node text
      → IsRegularAt base key.node pad
      → bytes_eq key.node input.node ≡ false
      → (reserve_usage env dir id role >> (mark_pad_consumed env key >>= f)) w ≡ (ok b, w2)
      → ((file : Handle) (w1 : World)
          → w1.files input.node ≡ some text
          → w1.files file.node ≡ some (record pad { bytes = copy_at 17 (1 ∷ []) pad.bytes })
          → f file w1 ≡ (ok b, w2)
          → G)
      → G
  by_spending dir id role key f input w base text pad same ht hp other h rest =
      let reserved = >>=-passed _ _ w h in
      let in_text =
        reserve_usage-keeps dir id role input.node text w
          (ap (λ (fs : Files). fs input.node) same ∙ ht.0, ht.1) reserved.2 in
      let in_pad =
        reserve_usage-keeps dir id role key.node pad w
          (ap (λ (fs : Files). fs key.node) same ∙ hp.0, hp.1) reserved.2 in
      let marked = >>=-passed _ _ reserved.1 reserved.3 in
      let mark = mark_pad_consumed-marks key pad reserved.1 reserved.1.files refl in_pad marked.2 in
      rest marked.0 marked.1
        (ap (λ (fs : Files). fs input.node) mark.1
          ∙ (put_file-other key.node input.node _ reserved.1.files other ∙ in_text))
        (ap (λ (fs : Files). fs marked.0.node) mark.1
          ∙ (ap (put_file key.node _ reserved.1.files) mark.0
              ∙ put_file-same key.node _ reserved.1.files))
        marked.3
