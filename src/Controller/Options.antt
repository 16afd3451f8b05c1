-- ===== src/Controller/Options.antt =====
-- controller/options.go and user.go.
use Prim.Native.String.{◌++◌ as join_text}
use colex.Base.{
  ℕ, String, Bool, true, false, not, ◌&&◌, Option, none, some, List, [], ◌∷◌, ◌++◌, ◌≡◌, refl, ◌≢◌,
  ◌⊎◌, inl, inr, Bool-cases, if◌then◌else◌, same_text, same_text_iff, arith,
}
use colex.Base.Map.{Map, lookup, insert, lookup-insert, lookup-insert_self}
use colex.Controller.Types.{Options, Base, dev_nodes, IdMap, AccountMapping}

abbrev pub is_empty {ℓ} : {A : Type ℓ} → List A → Bool
is_empty [] = true
is_empty (x ∷ xs) = false

-- MapUser and MapGroup are the same function of user.go.
unfoldable pub map_user : ℕ → ℕ → IdMap
map_user host contained = record { container_id = contained; host_id = host; size = 1 }

unfoldable pub parent_to_root_mapping : ℕ → ℕ → AccountMapping
unfolding map_user
parent_to_root_mapping uid gid = record {
  uid_mappings = map_user uid 0 ∷ [];
  gid_mappings = map_user gid 0 ∷ [];
}

-- m["localhost"], where a missing key reads as ""
abbrev pub text_at : String → Map String → String
text_at k m = elim (lookup k m) [ none ↦ "" | some v ↦ v ]

unfoldable pub with_localhost : Option (Map String) → Map String
with_localhost none = insert "localhost" "127.0.0.1" []
with_localhost (some m) =
    if same_text (text_at "localhost" m) "" then insert "localhost" "127.0.0.1" m else m

-- Finalize; `uid` and `gid` are the daemon's.
unfoldable pub finalize : ℕ → ℕ → Options → Options
unfolding parent_to_root_mapping with_localhost
finalize uid gid o = record o {
  account_mappers =
      if is_empty o.account_mappers && not o.disable_acct_namespace
      then parent_to_root_mapping uid gid ∷ []
      else o.account_mappers;
  env = o.env ++ "PS1=\\u@\\h:\\w> " ∷ join_text "CLASS=" o.class ∷ [];
  bases = o.bases ++ dev_nodes ∷ [];
  nameservers = if is_empty o.nameservers then "8.8.8.8" ∷ [] else o.nameservers;
  host_map = some (with_localhost o.host_map);
}

unfoldable pub add_fs : Base → Options → Options
add_fs b o = record o { bases = o.bases ++ b ∷ [] }

-- What NewSilo may rely on after Finalize.
pub record IsComplete (o : Options) : Type 0 where
  pub nameservers : o.nameservers ≢ []
  pub mapped : (o.disable_acct_namespace ≡ true) ⊎ (o.account_mappers ≢ [])
  pub localhost : (m : Map String) × (o.host_map ≡ some m) × (text_at "localhost" m ≢ "")

with_localhost_lem : (h : Option (Map String)) → text_at "localhost" (with_localhost h) ≢ ""
unfolding with_localhost
with_localhost_lem none = ground (
  arith,
  lookup-insert_self {V = String} "localhost" "127.0.0.1" [],
  same_text_iff "127.0.0.1" "",
)
with_localhost_lem (some m) = ground (
  arith,
  lookup-insert_self {V = String} "localhost" "127.0.0.1" m,
  same_text_iff "127.0.0.1" "",
  same_text_iff (text_at "localhost" m) "",
)

-- Finalize leaves no silo without a name server, without an address for localhost, or without a
-- mapping of its root user unless the configuration turns user namespaces off.
pub finalize-IsComplete : (uid gid : ℕ) (o : Options) → IsComplete (finalize uid gid o)
unfolding finalize
finalize-IsComplete uid gid o = record {
  nameservers = ground arith;
  mapped = elim (Bool-cases o.disable_acct_namespace) [
    | inl off ↦ inl off
    | inr on ↦ inr (ground arith)
  ];
  localhost = (with_localhost o.host_map, refl, with_localhost_lem o.host_map);
}

abbrev pub map_of : Option (Map String) → String → Option String
map_of none host = none
map_of (some m) host = lookup host m

-- Finalize changes no host entry but that of localhost, and that one only where it is missing or empty.
pub finalize-host_map :
    (uid gid : ℕ) (o : Options) (m : Map String) (host : String)
    → o.host_map ≡ some m
    → (host ≢ "localhost") ⊎ (text_at host m ≢ "")
    → map_of (finalize uid gid o).host_map host ≡ lookup host m
unfolding finalize with_localhost
finalize-host_map uid gid o m host e h = rw e (
    ground (
      arith,
      lookup-insert "localhost" host "127.0.0.1" m,
      same_text_iff "localhost" host,
      same_text_iff (text_at host m) "",
    ))
