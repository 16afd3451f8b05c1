-- ===== src/Controller/Interfaces/Naming.antt =====
-- controller/interfaces.go: the name of a bridge.
use Prim.Native.String.{◌++◌ as join_text}
use Prim.Native.String.append as append
use colex.Base.{
  same_text_iff, ◌≢◌, ℕ, String, false, List, [], ◌∷◌, ◌≡◌, sym, ap, ◌∙◌, arith, same_text,
}
use colex.Base.Text.{codes, decimal}
use colex.Controller.Interfaces.{device_name}

-- The name of a bridge is not empty.
abbrev first_code : List ℕ → ℕ
first_code [] = 0
first_code (c ∷ cs) = c

letter_first : (t : String) → join_text "b" t ≢ ""
letter_first t e =
    let first : first_code (codes (String.◌∷◌ "b" (join_text "" t))) ≡ 0 =
      ap (λ s. first_code (codes s)) (sym (append.cons "b" "" t) ∙ e) in
    omega arith

pub bridge_named :
    (index : ℕ) (id_hex : String) → same_text (device_name "b" index id_hex) "" ≡ false
bridge_named index id_hex = ground (
  arith,
  same_text_iff (device_name "b" index id_hex) "",
  letter_first (join_text (decimal index) (join_text "-" id_hex)),
)
