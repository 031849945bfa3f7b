-- ===== src/Examples/Registered.antt =====
-- The provider, after two logins of one client and the logout of another.
use gologincase.Common.{◌≡◌, [], str_eq}
use gologincase.Provider.{accepted, create, run, status_client}
use gologincase.Provider.Invariant.{Inv, run-create-Inv}
use gologincase.Provider.History.{registered, status_client-run}
use gologincase.Examples.Data.{login, pass, calls, calls-IsFair}

run-create-Inv_example : Inv (run (create login pass) calls)
run-create-Inv_example = run-create-Inv login pass calls calls-IsFair

status_client-run_example : status_client (run (create login pass) calls) 1 [] ≡ accepted
unfolding registered str_eq
status_client-run_example = status_client-run login pass calls 1 [] calls-IsFair
