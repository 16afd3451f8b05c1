-- ===== src/Metadata/Requests/Grants.antt =====
-- Which silos learn of others by their ID.
use colex.Base.{String, Bool, true, false, some, ◌≡◌}
use colex.Base.Map.{lookup}
use colex.Os.{Os}
use colex.Metadata.{SiloInfo, Metadata}
use colex.Metadata.Dns.{id_for}
use colex.Metadata.Requests.{Reply, meta, netstats, grants}

-- The answer to a question about a silo by its ID.
abbrev pub is_about : Reply → Bool
is_about (meta s) = true
is_about (netstats is) = true
is_about _ = false

-- The client is a silo that may ask.
abbrev pub IsGranted : (String → String) → Metadata → String → Type 0
IsGranted split_host m remote =
    (s : SiloInfo) × (lookup (id_for split_host remote m) m.silos_by_id ≡ some s)
    × (grants (lookup "query_silos" s.silo.grant) ≡ true)
