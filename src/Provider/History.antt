-- ===== src/Provider/History.antt =====
-- The provider against its contract: who is registered follows from the calls alone.
use gologincase.Common.{
  ℕ, ◌≡◌, ◌≢◌, ◌↔◌, refl, Bool, false, not, ◌&&◌, ◌||◌, List, [], ◌∷◌, ◌++◌, none, some, Buffer,
  Table, find, emplace, values, find-erase, keep, All, arith, Option-cases, inl, inr, ◌==◌,
  if◌then◌else◌, str_eq, str_eq-eq, str_eq_refl, is_some,
}
use gologincase.Provider.{
  Provider, AuthClient, Cookies, accepted, not_found, create, generate, add_client, rem_client,
  status_client, get_clients, status_eq, is_accepted, Call, add, rem, step, run,
}
use gologincase.Provider.Invariant.{Inv, AllEntries, IsFair, find-IsEntry, run-create-Inv}

-- What a call makes of "the client `id` is registered": an `add` under the configured login and
-- password registers its number, a `rem` of the number takes it out.
abbrev pub mark : Buffer → Buffer → ℕ → Call → Bool → Bool
mark login pass id (add dist k cookies l p) b = b || (k == id && (str_eq l login && str_eq p pass))
mark login pass id (rem k session) b = b && not (k == id)

unfoldable pub registered : Buffer → Buffer → ℕ → Bool → List Call → Bool
registered login pass id b [] = b
registered login pass id b (c ∷ cs) = registered login pass id (mark login pass id c b) cs

pub step-mark :
    (p : Provider) (id : ℕ) (c : Call)
    → is_some (find id (step p c).clients)
      ≡ mark p.client_login p.client_pass id c (is_some (find id p.clients))
unfolding step add_client rem_client find emplace
step-mark p id (add dist k cookies l w) = ground arith
step-mark p id (rem k session) = ground (arith, find-erase k id p.clients)

pub step-config :
    (p : Provider) (c : Call)
    → ((step p c).client_login ≡ p.client_login) × ((step p c).client_pass ≡ p.client_pass)
unfolding step add_client rem_client
step-config p (add dist k cookies l w) = ground arith
step-config p (rem k session) = ground arith

run-registered :
    (p : Provider) (id : ℕ) (cs : List Call)
    → is_some (find id (run p cs).clients)
      ≡ registered p.client_login p.client_pass id (is_some (find id p.clients)) cs
unfolding run registered
run-registered p id [] = refl
run-registered p id (c ∷ cs) =
    rw (run-registered (step p c) id cs, (step-config p c).0, (step-config p c).1, step-mark p id c)
      refl

-- Under the invariant the status of a client says no more than whether it has an entry.
pub status_client-find :
    (p : Provider) (id : ℕ) (session : Buffer)
    → Inv p
    → status_client p id session ≡ (if is_some (find id p.clients) then accepted else not_found)
unfolding status_client
status_client-find p id session v = elim (Option-cases (find id p.clients)) [
  | inl e ↦ rw (e, status_client) refl
  | inr (c, e) ↦
      rw (e, status_client) (find-IsEntry p.client_login id p.clients c v.entries e).is_accepted
]

-- After any calls on a new provider, `status_client` is `accepted` for the numbers that the calls
-- registered and did not remove since, and `not_found` for all others, whatever session it is given.
pub status_client-run :
    (login pass : Buffer) (cs : List Call) (id : ℕ) (session : Buffer)
    → All IsFair cs
    → status_client (run (create login pass) cs) id session
      ≡ (if registered login pass id false cs then accepted else not_found)
unfolding create find
status_client-run login pass cs id session f =
    rw
      (
        status_client-find (run (create login pass) cs) id session (run-create-Inv login pass cs f),
        run-registered (create login pass) id cs,
      )
      refl

-- `add_client` accepts exactly the configured login and password under a number that is free; it
-- then stores the client under that number and touches no other, and in all other cases it changes
-- nothing and hands the session back as it was.
pub add_client_lem :
    (p : Provider) (dist : ℕ → ℕ) (id : ℕ) (cookies : Cookies) (login pass session : Buffer)
    → let r = add_client p dist id cookies login pass session in
      (((r.0 ≡ accepted)
        ↔ ((login ≡ p.client_login) × (pass ≡ p.client_pass) × (find id p.clients ≡ none))))
      × (r.0 ≡ accepted
          → (j : ℕ)
          → find j r.1.clients ≡ (
              if id == j
              then some (record {
                cookie = cookies;
                id = id;
                session = session ++ generate dist 32 0;
                login = p.client_login;
                status = accepted;
              })
              else find j p.clients))
      × (r.0 ≢ accepted → (r.1 ≡ p) × (r.2 ≡ session))
unfolding add_client find emplace
add_client_lem p dist id cookies login pass session = ground (
  arith,
  str_eq-eq login p.client_login,
  str_eq-eq pass p.client_pass,
  str_eq_refl login,
  str_eq_refl pass,
)

values-keep :
    (login : Buffer) (m : Table AuthClient)
    → AllEntries login m
    → keep (λ c. status_eq c.status accepted) (values m) ≡ values m
values-keep login [] h = refl
values-keep login ((k, c) ∷ m) h = ground (arith, values-keep login m h.1)

-- Under the invariant the accepted clients are all that there are.
pub get_clients-accepted : (p : Provider) → Inv p → get_clients p accepted ≡ values p.clients
unfolding get_clients
get_clients-accepted p v = values-keep p.client_login p.clients v.entries

pub accepted-is_some :
    (p : Provider) (id : ℕ) (session : Buffer)
    → Inv p
    → is_accepted (status_client p id session) ≡ is_some (find id p.clients)
accepted-is_some p id session v = rw (status_client-find p id session v) (ground arith)
