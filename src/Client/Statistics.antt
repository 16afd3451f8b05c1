-- ===== src/Client/Statistics.antt =====
-- main.go of colex-cli: sumInterfaceStatistics, whose counters are uint64, and filterSysInterfaces.
use colex.Base.{
  ℕ, ◌+◌, ◌%◌, ◌^◌, ◌<◌, Bool, true, false, ◌||◌, List, [], ◌∷◌, ◌≡◌, refl, sym, ap, ◌∙◌, arith,
  if◌then◌else◌, same_text,
}
use colex.Os.{LinkStatistics, no_statistics}
use colex.Wire.{Interface}

-- `out.RxPackets += intf.Stats.RxPackets` and so on
abbrev add_statistics : LinkStatistics → LinkStatistics → LinkStatistics
add_statistics a b = record {
  rx_packets = (a.rx_packets + b.rx_packets) % 2 ^ 64;
  tx_packets = (a.tx_packets + b.tx_packets) % 2 ^ 64;
  rx_bytes = (a.rx_bytes + b.rx_bytes) % 2 ^ 64;
  tx_bytes = (a.tx_bytes + b.tx_bytes) % 2 ^ 64;
  rx_errors = (a.rx_errors + b.rx_errors) % 2 ^ 64;
  tx_errors = (a.tx_errors + b.tx_errors) % 2 ^ 64;
  rx_dropped = (a.rx_dropped + b.rx_dropped) % 2 ^ 64;
  tx_dropped = (a.tx_dropped + b.tx_dropped) % 2 ^ 64;
}

unfoldable sum_from : LinkStatistics → List Interface → LinkStatistics
sum_from out [] = out
sum_from out (intf ∷ rest) =
    sum_from (if same_text intf.kind "loopback" then out else add_statistics out intf.stats) rest

unfoldable pub sum_interface_statistics : List Interface → LinkStatistics
unfolding sum_from
sum_interface_statistics ins = sum_from no_statistics ins

-- loopback, host-veth and bridge are left out
unfoldable pub filter_sys_interfaces : List Interface → List Interface
filter_sys_interfaces [] = []
filter_sys_interfaces (intf ∷ rest) =
    let kept = filter_sys_interfaces rest in
    if same_text intf.kind "loopback"
      || same_text intf.kind "host-veth"
      || same_text intf.kind "bridge"
    then kept
    else intf ∷ kept

-- The sum of one counter over the interfaces that are not loopbacks, without a bound
unfoldable pub total : (LinkStatistics → ℕ) → List Interface → ℕ
total counter [] = 0
total counter (intf ∷ rest) =
    let later = total counter rest in
    if same_text intf.kind "loopback" then later else counter intf.stats + later

-- A counter that add_statistics adds
record IsCounter (counter : LinkStatistics → ℕ) : Type 0 where
  adds : (a b : LinkStatistics) → counter (add_statistics a b) ≡ (counter a + counter b) % 2 ^ 64

mod_lem : (a b c : ℕ) → ((a + b) % 2 ^ 64 + c) % 2 ^ 64 ≡ (a + (b + c)) % 2 ^ 64
mod_lem a b c = omega arith

module _ (counter : LinkStatistics → ℕ) (is : IsCounter counter) where
  next_lem :
      (out stats : LinkStatistics) (rest : List Interface) (skip : Bool)
      → counter (add_statistics out stats) ≡ (counter out + counter stats) % 2 ^ 64
      → counter (sum_from out rest) ≡ (counter out + total counter rest) % 2 ^ 64
      → counter (sum_from (add_statistics out stats) rest)
        ≡ (counter (add_statistics out stats) + total counter rest) % 2 ^ 64
      → counter (sum_from (if skip then out else add_statistics out stats) rest)
        ≡ (counter out + (if skip then total counter rest else counter stats + total counter rest))
          % 2 ^ 64
  next_lem out stats rest true added same later = same
  next_lem out stats rest false added same later =
      later
      ∙ ap (λ n. (n + total counter rest) % 2 ^ 64) added
      ∙ mod_lem (counter out) (counter stats) (total counter rest)

  sum_from-total :
      (out : LinkStatistics) (ins : List Interface)
      → counter out < 2 ^ 64
      → counter (sum_from out ins) ≡ (counter out + total counter ins) % 2 ^ 64
  unfolding sum_from total
  sum_from-total out [] h = omega arith
  sum_from-total out (intf ∷ rest) h =
      let added = is.adds out intf.stats in
      let less : counter (add_statistics out intf.stats) < 2 ^ 64 = omega arith in
      next_lem out intf.stats rest (same_text intf.kind "loopback") added
        (sum_from-total out rest h) (sum_from-total (add_statistics out intf.stats) rest less)

  sum-total :
      (ins : List Interface)
      → counter no_statistics ≡ 0
      → counter (sum_interface_statistics ins) ≡ total counter ins % 2 ^ 64
  unfolding sum_interface_statistics
  sum-total ins z = let it = sum_from-total no_statistics ins (omega arith) in omega arith

-- Each counter of the sum is the sum of that counter over the interfaces that are not loopbacks, modulo
-- 2 ^ 64.
pub sum_interface_statistics-total :
    (ins : List Interface)
    → sum_interface_statistics ins ≡ record {
      rx_packets = total (λ s. s.rx_packets) ins % 2 ^ 64;
      tx_packets = total (λ s. s.tx_packets) ins % 2 ^ 64;
      rx_bytes = total (λ s. s.rx_bytes) ins % 2 ^ 64;
      tx_bytes = total (λ s. s.tx_bytes) ins % 2 ^ 64;
      rx_errors = total (λ s. s.rx_errors) ins % 2 ^ 64;
      tx_errors = total (λ s. s.tx_errors) ins % 2 ^ 64;
      rx_dropped = total (λ s. s.rx_dropped) ins % 2 ^ 64;
      tx_dropped = total (λ s. s.tx_dropped) ins % 2 ^ 64;
    }
sum_interface_statistics-total ins =
    rw
      (
        sym (sum-total (λ s. s.rx_packets) (record { adds = λ a b. refl }) ins refl),
        sym (sum-total (λ s. s.tx_packets) (record { adds = λ a b. refl }) ins refl),
        sym (sum-total (λ s. s.rx_bytes) (record { adds = λ a b. refl }) ins refl),
        sym (sum-total (λ s. s.tx_bytes) (record { adds = λ a b. refl }) ins refl),
        sym (sum-total (λ s. s.rx_errors) (record { adds = λ a b. refl }) ins refl),
        sym (sum-total (λ s. s.tx_errors) (record { adds = λ a b. refl }) ins refl),
        sym (sum-total (λ s. s.rx_dropped) (record { adds = λ a b. refl }) ins refl),
        sym (sum-total (λ s. s.tx_dropped) (record { adds = λ a b. refl }) ins refl),
      )
      refl
