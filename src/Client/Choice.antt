-- ===== src/Client/Choice.antt =====
-- main.go of colex-cli: main and its table of commands.
use colex.Base.{
  ℕ, String, Bool, true, false, ◌&&◌, not, Option, none, some, List, [], ◌∷◌, ◌≡◌, refl, length,
  ltb, if◌then◌else◌, same_text,
}
use colex.Base.Outcome.{
  Result, Exec, ok, err, panic, no_serv_flag, unknown_command, too_few_arguments, pure, raise,
  crash, ◌>>=◌,
}
use colex.Wire.{Payload}
use colex.Client.{World, Outside, post}
use colex.Client.Commands.{
  accepted, list_command, down_command, up_command, enroll_command, enable_enroll_command,
  set_host_command,
}

pub data Command : Type 0 where
  listing down up enroll enable_enroll set_host help : Command

-- The keys of the map `commands`
unfoldable pub command_of : String → Option Command
command_of name =
    if same_text name "list"
    then some listing
    else if same_text name "down"
    then some down
    else if same_text name "up"
    then some up
    else if same_text name "enroll"
    then some enroll
    else if same_text name "enable-enroll"
    then some enable_enroll
    else if same_text name "set-host"
    then some set_host
    else if same_text name "help"
    then some help
    else none

unfoldable pub min_args : Command → ℕ
min_args listing = 0
min_args down = 2
min_args up = 2
min_args enroll = 1
min_args enable_enroll = 1
min_args set_host = 2
min_args help = 0

-- flag.Arg(0) and flag.Arg(flag.NArg()-1)
unfoldable pub first_arg : List String → String
first_arg [] = ""
first_arg (a ∷ rest) = a

unfoldable pub last_arg : List String → String
last_arg [] = ""
last_arg (a ∷ []) = a
last_arg (a ∷ b ∷ rest) = last_arg (b ∷ rest)

abbrev pub args_after : List String → List String
args_after [] = []
args_after (a ∷ rest) = rest

abbrev pub unless_short : Bool → Command → List String → Result (Command × List String)
unless_short true c given = err too_few_arguments
unless_short false c given = ok (c, given)

-- The command, and what is handed to it
unfoldable pub chosen :
    Option Command → Option Command → List String → Result (Command × List String)
unfolding min_args
chosen (some c) leading args = unless_short (ltb (length args) (min_args c)) c args
chosen none (some c) args = unless_short (ltb (length args) (min_args c)) c (args_after args)
chosen none none args = err unknown_command

unfoldable pub choose : List String → Result (Command × List String)
unfolding command_of first_arg last_arg chosen
choose args = chosen (command_of (last_arg args)) (command_of (first_arg args)) args

module _ {R : Type 0} (outside : Outside R) (serv : String) where
  unfoldable pub handler : Command → List String → Exec (World R) Unit
  handler listing args = list_command outside serv args
  handler down args = down_command outside serv args
  handler up args = up_command outside serv args
  handler enroll args = enroll_command outside serv args
  handler enable_enroll args = enable_enroll_command outside serv args
  handler set_host args = set_host_command outside serv args
  handler help args = pure tt

  unfoldable pub handle : Result (Command × List String) → Exec (World R) Unit
  handle (ok (c, args)) = handler c args
  handle (err e) = raise e
  handle panic = crash

  unfoldable pub main : List String → Exec (World R) Unit
  main args =
      if same_text serv "" && not (same_text (first_arg args) "help")
      then raise no_serv_flag
      else handle (choose args)

module _ {R : Type 0} (outside : Outside R) (serv : String) where
  -- Where a server is named and neither the host's name nor the address is a command's: `set-host <host> <address>`
  -- posts the host and the address. The count of the arguments includes the command's name, so that `set-host <host>`
  -- panics before anything is done, and `<host> set-host` posts the word "set-host" as the host's address.
  pub main-set_host :
      (host address : String)
      → same_text serv "" ≡ false
      → command_of host ≡ none
      → command_of address ≡ none
      → (main outside serv ("set-host" ∷ host ∷ address ∷ []) ≡ (do
        reply ←
            post outside serv "/set-host"
              (Payload.set_host (record { host = host; ip = address }))
              ""
              ""
        accepted outside serv reply))
        × (main outside serv ("set-host" ∷ host ∷ []) ≡ crash)
        × (main outside serv (host ∷ "set-host" ∷ []) ≡ (do
          reply ←
              post outside serv "/set-host"
                (Payload.set_host (record { host = host; ip = "set-host" }))
                ""
                ""
          accepted outside serv reply))
  unfolding main choose last_arg first_arg handle handler set_host_command chosen
  main-set_host host address named h a = rw (named, h, a) (refl, refl, refl)
