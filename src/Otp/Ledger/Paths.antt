-- ===== src/Otp/Ledger/Paths.antt =====
-- otp/src/lib.rs: the file of the ledger for a pad is that of no other pad.
use rust_encryption.Common.{
  ◌*◌, ◌≡◌, refl, sym, ap, ◌∙◌, ◌++◌, List, arith, Bytes, IsBytes, length, take, drop, get_or,
  take-append, drop-append, Bool, true, false, if◌then◌else◌, ◌==◌,
}
use rust_encryption.Common.Text.{codes}
use rust_encryption.Otp.Role.{PadRole, sender, receiver, role_name}
use rust_encryption.Otp.Hex.{hex_encode}
use rust_encryption.Otp.Hex.Decode.{hex_decode, hex_decode-hex_encode, length-hex_encode}
use rust_encryption.Otp.World.{FilePath, join, needs_no_slash}
use rust_encryption.Otp.Ledger.{ledger_path}

append_cancel : {A : Type 0} (base x y : List A) → base ++ x ≡ base ++ y → x ≡ y
append_cancel base x y h =
    sym (drop-append (length base) base x refl)
    ∙ (ap (drop (length base)) h ∙ drop-append (length base) base y refl)

joined_cancel :
    (b : Bool) (base x y : FilePath)
    → (if b then base ++ x else base ++ (codes "/" ++ x))
      ≡ (if b then base ++ y else base ++ (codes "/" ++ y))
    → x ≡ y
joined_cancel true base x y h = append_cancel base x y h
joined_cancel false base x y h = append_cancel (codes "/") x y (append_cancel base _ _ h)

join_cancel : (base x y : FilePath) → join base x ≡ join base y → x ≡ y
unfolding join
join_cancel base x y h = joined_cancel (needs_no_slash base) base x y h

abbrev role_at : Bytes → PadRole
role_at bytes = if get_or bytes 1 0 == 115 then sender else receiver

role_at-name :
    (role : PadRole) → role_at (codes "-" ++ (codes (role_name role) ++ codes ".used")) ≡ role
unfolding role_name
role_at-name sender = refl
role_at-name receiver = refl

-- Two pads, with identifiers of bytes and of the same size, have the same file in a state directory
-- only where their identifiers and their roles are the same.
pub ledger_path-injective :
    (dir : FilePath) (id1 id2 : Bytes) (role1 role2 : PadRole)
    → IsBytes id1
    → IsBytes id2
    → length id1 ≡ length id2
    → ledger_path dir id1 role1 ≡ ledger_path dir id2 role2
    → (id1 ≡ id2) × (role1 ≡ role2)
unfolding ledger_path
ledger_path-injective dir id1 id2 role1 role2 b1 b2 size h =
    let names = join_cancel dir _ _ h in
    let n1 = length-hex_encode id1 in
    let n2 = length-hex_encode id2 in
    let ids =
      sym (take-append (2 * length id1) (hex_encode id1) _ n1)
      ∙ (ap (take (2 * length id1)) names
          ∙ take-append (2 * length id1) (hex_encode id2) _ (omega (arith, n2, size))) in
    let roles =
      sym (drop-append (2 * length id1) (hex_encode id1) _ n1)
      ∙ (ap (drop (2 * length id1)) names
          ∙ drop-append (2 * length id1) (hex_encode id2) _ (omega (arith, n2, size))) in
    (
      sym (hex_decode-hex_encode id1 b1) ∙ (ap hex_decode ids ∙ hex_decode-hex_encode id2 b2),
      sym (role_at-name role1) ∙ (ap role_at roles ∙ role_at-name role2),
    )
