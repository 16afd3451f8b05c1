-- ===== src/Server/Requests/Listing.antt =====
-- serv.go: the LIST request.
use colex.Base.{String, Option, none, some, List, [], ◌∷◌, map, ◌≡◌, refl, sym, ap, ◌∙◌, arith}
use colex.Base.Keeps.{Keeps}
use colex.Base.Map.{Map}
use colex.Base.Outcome.{Result, Exec, ok, err, panic, pure}
use colex.Base.Yields.{Yields, Ends, Yields-bind, Yields-keep, Yields-pure}
use colex.Os.{Host}
use colex.Wire.{SiloRow, ListPacket, list_request}
use colex.Controller.Types.{Silo}
use colex.Server.{Server, Env, Reply, list_response, on_host}
use colex.Server.Requests.{list_rows, list_reply, list_silos_handler}

-- The name and the ID under which a silo is listed, and those under which it is known
abbrev pub listed_as : List SiloRow → List (String × String)
listed_as = map (λ (r : SiloRow). (r.name, r.id_hex))

abbrev pub known_as : Map Silo → List (String × String)
known_as = map (λ (e : String × Silo). (e.0, e.1.id_hex))

abbrev rows_of : Result Reply → List SiloRow
rows_of (ok (list_response q)) = q.matches
rows_of _ = []

module _ (env : Env) (all : Map Silo) where
  abbrev HasAll : Server → Type 0
  HasAll s = s.silos ≡ all

  on_host-HasAll : {A : Type 0} (m : Exec Host A) → Keeps HasAll (on_host m)
  unfolding colex.Base.Outcome.within
  on_host-HasAll m = record { at = λ s h. h }

  kept_all : {A : Type 0} (m : Exec Host A) → Yields HasAll (λ _. HasAll) HasAll (on_host m)
  kept_all m = Yields-keep (on_host m) (on_host-HasAll m) (λ a s h. h) (λ s h. h)

  list_rows-Yields :
      (m : Map Silo)
      → Yields HasAll (λ rows s. (listed_as rows ≡ known_as m) × HasAll s) HasAll (list_rows env m)
  unfolding list_rows
  list_rows-Yields [] = Yields-pure [] (λ s h. (refl, h))
  list_rows-Yields ((name, silo) ∷ rest) = Yields-bind _ _ (kept_all _) (λ mem.
      Yields-bind _ _ (kept_all _) (λ interfaces.
        Yields-bind _ _ (list_rows-Yields rest)
          (λ rows. Yields-pure _ (λ s (e, h). (ap (λ more. (name, silo.id_hex) ∷ more) e, h)))))

  -- The reply, if it is a list
  reply_lem :
      (name : String) (m : Map Silo) (r : Result (List SiloRow) × Server) (p : ListPacket)
      (t : Server)
      → Ends (λ rows s. (listed_as rows ≡ known_as m) × HasAll s) HasAll r
      → list_reply env name r ≡ (ok (list_response p), t)
      → (listed_as p.matches ≡ known_as m) × HasAll t
  reply_lem name m (ok rows, s) p t (e, h) same =
      let matches : rows ≡ p.matches = ap (λ (x : Result Reply × Server). rows_of x.0) same in
      let state : s ≡ t = ap (λ (x : Result Reply × Server). x.1) same in
      (sym (ap listed_as matches) ∙ e, sym (ap (λ (x : Server). x.silos) state) ∙ h)
  reply_lem name m (err x, s) p t h same = cc
  reply_lem name m (panic, s) p t h same = cc

-- The answer to a LIST request has one row for each silo of the server, in the order of the map, with the
-- silo's name and ID, and the request leaves the map as it is.
pub list_silos_handler-known_as :
    (env : Env) (s t : Server) (p : ListPacket)
    → list_silos_handler env list_request s ≡ (ok (list_response p), t)
    → (listed_as p.matches ≡ known_as s.silos) × (t.silos ≡ s.silos)
unfolding list_silos_handler
list_silos_handler-known_as env s t p e =
    reply_lem env s.silos s.config.name s.silos (list_rows env s.silos s) p t
      ((list_rows-Yields env s.silos s.silos).ends s refl) e
