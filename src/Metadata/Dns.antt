-- ===== src/Metadata/Dns.antt =====
-- colexd/metadata_service.go: the answers to DNS questions, and the silo that asks.
use colex.Base.{
  String, Bool, true, Option, none, some, List, [], ◌∷◌, ◌++◌, if◌then◌else◌, same_text,
}
use colex.Base.Map.{Map, lookup}
use colex.Base.Text.{trim_suffix, cut_text}
use colex.Ip.{Ip}
use colex.Wire.{Interface}
use colex.Metadata.{Metadata, SiloInfo, find_routeable_address, find_silo_id}

-- dns.A, a record of an answer
pub record Answer : Type 0 where
  pub name : String
  pub address : Ip

abbrev interfaces_of : Option SiloInfo → List Interface
interfaces_of none = []
interfaces_of (some s) = s.interfaces

abbrev bridge_of : Option SiloInfo → String
bridge_of none = ""
bridge_of (some s) = s.bridge_ip

-- `split_host` is the host of net.SplitHostPort, empty where that fails.
module _ (split_host : String → String) where
  abbrev without_port : String → Option (String × String) → String
  without_port addr none = addr
  without_port addr (some parts) = split_host addr

  unfoldable pub id_for : String → Metadata → String
  id_for remote m = find_silo_id (without_port remote (cut_text 58 remote)) m.silos_by_id

-- `parse_ip` is net.ParseIP.
module _ (split_host : String → String) (parse_ip : String → Ip) where
  abbrev pub routeable : Option SiloInfo → Option String
  routeable none = none
  routeable (some s) =
      let address = find_routeable_address s.interfaces in
      if same_text address "" then none else some address

  -- the address of `<name>.silo.`, where that silo is known and has one
  abbrev pub silo_address : Option String → Metadata → Option String
  silo_address none m = none
  silo_address (some name) m = routeable (lookup name m.silos_by_name)

  abbrev answer : String → String → Answer
  answer name text = record { name = name; address = parse_ip text }

  abbrev hostname_answers : String → Option String → List Answer
  hostname_answers q none = []
  hostname_answers q (some text) = answer q text ∷ []

  abbrev known_host : Option (Map String) → String → Option String
  known_host none domain = none
  known_host (some hostnames) domain = lookup domain hostnames

  abbrev domain_of : String → Option String → String
  domain_of q none = q
  domain_of q (some d) = d

  unfoldable pub configured : Option (Map String) → String → List Answer
  configured hostnames q =
      hostname_answers q (known_host hostnames (domain_of q (trim_suffix "." q)))

  unfoldable pub is_self : String → Bool
  is_self q = same_text q "self."

  unfoldable pub is_host : String → Bool
  is_host q =
      if same_text q "host."
      then true
      else if same_text q "metadata."
      then true
      else if same_text q "bridge."
      then true
      else same_text q "colex."

  -- The switch of ServeDNS and what follows it. A client that is no silo gets no answer to `self.` and
  -- to the names of the host, not even a configured one.
  unfoldable pub answer_special : Option (Map String) → Metadata → String → String → List Answer
  unfolding is_self is_host configured
  answer_special hostnames m remote q =
      let id = id_for split_host remote m in
      if is_self q
      then (if same_text id ""
          then []
          else answer q (find_routeable_address (interfaces_of (lookup id m.silos_by_id)))
            ∷ configured hostnames q)
      else if is_host q
      then (if same_text id ""
          then []
          else answer q (bridge_of (lookup id m.silos_by_id)) ∷ configured hostnames q)
      else configured hostnames q

  abbrev or_special : String → Option String → List Answer → List Answer
  or_special q (some address) others = answer q address ∷ []
  or_special q none others = others

  unfoldable pub answer_question : Option (Map String) → Metadata → String → String → List Answer
  unfolding answer_special
  answer_question hostnames m remote q =
      or_special q (silo_address (trim_suffix ".silo." q) m) (answer_special hostnames m remote q)

  -- ServeDNS: the answers to the questions, or no message at all.
  unfoldable pub serve_dns :
      Option (Map String) → Metadata → String → List String → Option (List Answer)
  unfolding answer_question
  serve_dns hostnames m remote questions = if m.is_closing then none else some (all questions)
    where
      all : List String → List Answer
      all [] = []
      all (q ∷ rest) = answer_question hostnames m remote q ++ all rest
