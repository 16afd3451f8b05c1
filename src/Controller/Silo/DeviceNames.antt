-- ===== src/Controller/Silo/DeviceNames.antt =====
-- controller.go and interfaces.go: the names of a silo's devices against the kernel's limit of 15 characters.
use Prim.Native.String.{◌++◌ as join_text}
use colex.Base.{
  ℕ, String, Bool, true, false, ◌≡◌, ◌≤◌, ◌<◌, ◌==◌, refl, arith, length, if◌then◌else◌,
}
use colex.Base.Outcome.{Exec, pure, raise, randomness_not_filled}
use colex.Base.Sizes.{text_size, text_size-append, text_size-hex, text_size-decimal}
use colex.Base.Text.{Bytes, hex, decimal}
use colex.Base.Yields.{Yields, Ends, Yields-bind, Yields-pure, Yields-raise, Yields-if, Yields-keep}
use colex.Os.{Os, Host, rand_bytes}
use colex.Controller.Interfaces.{device_name}
use colex.Controller.Types.{Silo, Options}
use colex.Controller.Silo.{new_silo}

-- The names that Setup gives to the devices of the interface at an index
pub record AreShort (id_hex : String) (index : ℕ) : Type 0 where
  pub bridge : text_size (device_name "b" index id_hex) ≤ 15
  pub host_veth : text_size (join_text (device_name "v" index id_hex) "h") ≤ 15
  pub silo_veth : text_size (join_text (device_name "v" index id_hex) "s") ≤ 15

abbrev Any : Host → Type 0
Any h = Unit

one_letter :
    (letter : String)
    → text_size letter ≡ 1
    → (index : ℕ) → index < 10000
    → (id : Bytes) → length id ≡ 4
    → text_size (device_name letter index (hex id)) ≤ 14
one_letter letter one index lt id four = omega (
  arith,
  one,
  four,
  text_size-hex id,
  text_size-decimal index 3 lt,
  dash,
  text_size-append "-" (hex id),
  text_size-append (decimal index) (join_text "-" (hex id)),
  text_size-append letter (join_text (decimal index) (join_text "-" (hex id))),
)
  where
    dash : text_size "-" ≡ 1
    dash = unfold text_size in refl

one_letter_size : text_size "h" ≡ 1
unfolding text_size
one_letter_size = refl

other_letter_size : text_size "s" ≡ 1
unfolding text_size
other_letter_size = refl

device-AreShort :
    (id : Bytes) → length id ≡ 4 → (index : ℕ) → index < 10000 → AreShort (hex id) index
device-AreShort id four index lt =
    let b : text_size (device_name "b" index (hex id)) ≤ 14 =
      one_letter "b" (unfold text_size in refl) index lt id four in
    let v : text_size (device_name "v" index (hex id)) ≤ 14 =
      one_letter "v" (unfold text_size in refl) index lt id four in
    record {
      bridge = omega (arith, b);
      host_veth =
          omega (arith, v, text_size-append (device_name "v" index (hex id)) "h", one_letter_size);
      silo_veth =
          omega
            (arith, v, text_size-append (device_name "v" index (hex id)) "s", other_letter_size);
    }

abbrev HasFour : Bytes → Host → Type 0
HasFour id h = length id ≡ 4

filled :
    (size count : ℕ) (buffer : Bytes) (same : Bool)
    → (size == count) ≡ same
    → Yields
        (λ (h : Host). length buffer ≡ size)
        (λ (b : Bytes) h. length b ≡ count)
        Any
        (if same then pure buffer else raise randomness_not_filled)
filled size count buffer true e = Yields-pure buffer (λ h k. ground (arith, k))
filled size count buffer false e = Yields-raise _ (λ h k. tt)

module _ (os : Os) where
  anyway : {A : Type 0} (m : Exec Host A) → Yields Any (λ a. Any) Any m
  anyway m = Yields-keep m (record { at = λ h k. tt }) (λ a h k. tt) (λ h k. tt)

  rand_bytes-Yields : (count : ℕ) → Yields Any (λ b h. length b ≡ count) Any (rand_bytes os count)
  unfolding rand_bytes
  rand_bytes-Yields count = Yields-bind _ _ (anyway _) (λ buffer. record {
    ends = λ h k. (filled (length buffer) count buffer (length buffer == count) refl).ends h refl;
  })

  -- The names that Setup gives to the devices of a silo from NewSilo are at most 15 characters long, the kernel's limit, for
  -- every index below ten thousand.
  pub new_silo-AreShort :
      (name : String) (o : Options) (h : Host) (index : ℕ)
      → index < 10000
      → Ends (λ (silo : Silo) t. AreShort silo.id_hex index) (λ t. Unit) (new_silo os name o h)
  unfolding new_silo
  new_silo-AreShort name o h index lt =
      (Yields-bind _ _ (rand_bytes-Yields 4) (λ id.
          Yields-if _ _ _ (Yields-pure _ (λ t four. device-AreShort id four index lt)) (
            Yields-if _ _ _ (Yields-raise _ (λ t k. tt)) (
              Yields-bind _ _ (Yields-keep _ (record { at = λ t k. k }) (λ a t k. k) (λ t k. tt))
                (λ u. Yields-pure _ (λ t four. device-AreShort id four index lt)))))).ends
        h tt
