-- ===== src/Metadata/Events.antt =====
-- colexd/metadata_service.go: whom a request is taken to be from, after any sequence of events.
use mathlib.Core.List.{
  Mem, mem-cons_self, mem-cons_of_mem, eq-or-mem_of_mem-cons, not-mem-nil, Perm,
}
use mathlib.Core.Logic.Or
use colex.Base.{
  String, Bool, true, false, List, [], ◌∷◌, ◌≡◌, refl, sym, subst, same_text, if◌then◌else◌,
}
use colex.Base.Int.{ℤ}
use colex.Base.Map.{Map, insert, remove}
use colex.Wire.{Interface}
use colex.Base.Outcome.{◌>>=◌}
use colex.Os.{Os, Host}
use colex.Metadata.{
  SiloInfo, Event, silo_started, silo_stopped, Service, Metadata, has_veth, find_silo_id,
  host_event, store, forget, new_metadata_service,
}
use colex.Metadata.Names.{started, stopped}
use colex.Metadata.Callers.{IsSeparate, find_silo_id-Perm, text-IsSet}

abbrev Entry : Type 0
Entry = String × SiloInfo

abbrev pub HasVeth : String → Entry → Type 0
HasVeth addr e = has_veth addr (e.1).interfaces ≡ true

one_of :
    (Goal : Entry → Type 0) (prop : (e : Entry) → IsProp (Goal e)) (first : Entry)
    (rest : Map SiloInfo)
    → Goal first
    → ((e : Entry) → Mem e rest → Goal e)
    → (e : Entry) → Mem e (first ∷ rest)
    → Goal e
one_of Goal prop first rest one all e m =
    Or.elim (prop e) (eq-or-mem_of_mem-cons m) (λ is. subst Goal (sym is) one) (all e)

by_key :
    (Goal : Entry → Type 0) (prop : (e : Entry) → IsProp (Goal e)) (id : String) (i : SiloInfo)
    (first : Entry) (rest later : Map SiloInfo) (same : Bool)
    → Goal (id, i)
    → ((e : Entry) → Mem e (first ∷ rest) → Goal e)
    → ((e : Entry) → Mem e later → Goal e)
    → (e : Entry) → Mem e (if same then (id, i) ∷ rest else first ∷ later)
    → Goal e
by_key Goal prop id i first rest later true new old after =
    one_of Goal prop (id, i) rest new (λ e m. old e (mem-cons_of_mem _ m))
by_key Goal prop id i first rest later false new old after =
    one_of Goal prop first later (old first mem-cons_self) after

-- What holds of a new entry and of all old ones, holds of all after an insertion.
insert-Goal :
    (Goal : Entry → Type 0) (prop : (e : Entry) → IsProp (Goal e)) (id : String) (i : SiloInfo)
    (table : Map SiloInfo)
    → Goal (id, i)
    → ((e : Entry) → Mem e table → Goal e)
    → (e : Entry) → Mem e (insert id i table)
    → Goal e
unfolding insert
insert-Goal Goal prop id i [] new old = one_of Goal prop (id, i) [] new old
insert-Goal Goal prop id i ((its, was) ∷ rest) new old =
    by_key Goal prop id i (its, was) rest (insert id i rest) (same_text its id) new old
      (insert-Goal Goal prop id i rest new (λ e m. old e (mem-cons_of_mem _ m)))

-- What is left after a removal was there before.
remove-Goal :
    (Goal : Entry → Type 0) (prop : (e : Entry) → IsProp (Goal e)) (id : String)
    (table : Map SiloInfo)
    → ((e : Entry) → Mem e table → Goal e)
    → (e : Entry) → Mem e (remove id table)
    → Goal e
unfolding remove
remove-Goal Goal prop id [] old = old
remove-Goal Goal prop id ((its, was) ∷ rest) old =
    without_first (same_text its id)
      (remove-Goal Goal prop id rest (λ e m. old e (mem-cons_of_mem _ m)))
  where
    without_first :
        (same : Bool)
        → ((e : Entry) → Mem e (remove id rest) → Goal e)
        → (e : Entry) → Mem e (if same then remove id rest else (its, was) ∷ remove id rest)
        → Goal e
    without_first true left = left
    without_first false left =
        one_of Goal prop (its, was) (remove id rest) (old _ mem-cons_self) left

abbrev SameId : String → Entry → Entry → Type 0
SameId addr one other = HasVeth addr one → HasVeth addr other → one.0 ≡ other.0

SameId-prop : (addr : String) (one other : Entry) → IsProp (SameId addr one other)
SameId-prop addr one other = hlevel (text-IsSet)

-- No address of the interfaces is that of another silo than `id`.
pub record IsNew (id : String) (interfaces : List Interface) (table : Map SiloInfo) : Type 0 where
  pub no_other :
      (addr : String) (e : String × SiloInfo)
      → Mem e table
      → has_veth addr (e.1).interfaces ≡ true
      → has_veth addr interfaces ≡ true
      → e.0 ≡ id

insert-IsSeparate :
    (id : String) (i : SiloInfo) (table : Map SiloInfo)
    → IsSeparate table
    → IsNew id i.interfaces table
    → IsSeparate (insert id i table)
insert-IsSeparate id i table sep new = record {
  same_id = λ addr one other m n.
      insert-Goal (λ x. SameId addr x other) (λ x. SameId-prop addr x other) id i table
        (insert-Goal (λ y. SameId addr (id, i) y) (λ y. SameId-prop addr (id, i) y) id i table
          (λ p q. refl) (λ y k p q. sym (new.no_other addr y k q p)) other n)
        (λ x k.
          insert-Goal (λ y. SameId addr x y) (λ y. SameId-prop addr x y) id i table
            (λ p q. new.no_other addr x k p q) (λ y l. sep.same_id addr x y k l) other n)
        one m;
}

remove-IsSeparate :
    (id : String) (table : Map SiloInfo) → IsSeparate table → IsSeparate (remove id table)
remove-IsSeparate id table sep = record {
  same_id = λ addr one other m n.
      remove-Goal (λ x. SameId addr x other) (λ x. SameId-prop addr x other) id table
        (λ x k.
          remove-Goal (λ y. SameId addr x y) (λ y. SameId-prop addr x y) id table
            (λ y l. sep.same_id addr x y k l) other n)
        one m;
}

-- A silo that starts has addresses of its own.
abbrev pub IsFreshEvent : Event → Map SiloInfo → Type 0
IsFreshEvent (silo_started name id tags interfaces silo) table = IsNew id interfaces table
IsFreshEvent (silo_stopped name id) table = Unit

abbrev pub new_service : Host → Service
new_service h = record { metadata = new_metadata_service; host = h }

module _ (os : Os) where
  by_closing :
      (now : ℤ) (e : Event) (s : Service) (closing : Bool)
      → s.metadata.is_closing ≡ closing
      → IsSeparate s.metadata.silos_by_id
      → IsFreshEvent e s.metadata.silos_by_id
      → IsSeparate (host_event os now e s).1.metadata.silos_by_id
  unfolding host_event ◌>>=◌
  by_closing now e s true same sep new = rw same sep
  by_closing now (silo_started name id tags interfaces silo) s false same sep new =
      let (i, its, after) = started os now name id tags interfaces silo s same in
      subst (λ (m : Metadata). IsSeparate m.silos_by_id) (sym after)
        (stored name id i s.metadata sep
          (subst (λ is. IsNew id is s.metadata.silos_by_id) (sym its) new))
    where
      stored :
          (name id : String) (i : SiloInfo) (m : Metadata)
          → IsSeparate m.silos_by_id
          → IsNew id i.interfaces m.silos_by_id
          → IsSeparate (store os name id i m).silos_by_id
      stored name id i m sep new = unfold store in insert-IsSeparate id i m.silos_by_id sep new
  by_closing now (silo_stopped name id) s false same sep new =
      subst (λ (m : Metadata). IsSeparate m.silos_by_id) (sym (stopped os now name id s same))
        (unfold forget in remove-IsSeparate id s.metadata.silos_by_id sep)

  pub host_event-IsSeparate :
      (now : ℤ) (e : Event) (s : Service)
      → IsSeparate s.metadata.silos_by_id
      → IsFreshEvent e s.metadata.silos_by_id
      → IsSeparate (host_event os now e s).1.metadata.silos_by_id
  host_event-IsSeparate now e s = by_closing now e s s.metadata.is_closing refl

  -- Events with their times, the first one first
  unfoldable pub run_events : List (ℤ × Event) → Service → Service
  run_events [] s = s
  run_events ((now, e) ∷ rest) s = run_events rest (host_event os now e s).1

  unfoldable pub AreFresh : List (ℤ × Event) → Service → Type 0
  AreFresh [] s = Unit
  AreFresh ((now, e) ∷ rest) s =
      IsFreshEvent e s.metadata.silos_by_id × AreFresh rest (host_event os now e s).1

  run_events-IsSeparate :
      (history : List (ℤ × Event)) (s : Service)
      → IsSeparate s.metadata.silos_by_id
      → AreFresh history s
      → IsSeparate (run_events history s).metadata.silos_by_id
  unfolding run_events AreFresh
  run_events-IsSeparate [] s sep new = sep
  run_events-IsSeparate ((now, e) ∷ rest) s sep (new, more) =
      run_events-IsSeparate rest _ (host_event-IsSeparate now e s sep new) more

  no_silos : IsSeparate []
  no_silos = record { same_id = λ addr one other m n. absurd (not-mem-nil m) }

  -- From a new metadata service on, after any sequence of events in which no silo starts with an address of another
  -- one that is known, a request from an address of a known silo is taken to be from that silo, in whatever order
  -- the map of the silos is walked.
  pub run_events-find_silo_id :
      (history : List (ℤ × Event)) (h : Host) (addr id : String) (info : SiloInfo)
      (order : Map SiloInfo)
      → AreFresh history (new_service h)
      → Mem (id, info) (run_events history (new_service h)).metadata.silos_by_id
      → has_veth addr info.interfaces ≡ true
      → Perm (run_events history (new_service h)).metadata.silos_by_id order
      → find_silo_id addr order ≡ id
  run_events-find_silo_id history h addr id info order new m veth p =
      find_silo_id-Perm addr id info _ order
        (run_events-IsSeparate history (new_service h) no_silos new) m veth p
