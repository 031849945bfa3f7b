-- ===== src/Provider/Invariant.antt =====
-- What holds of the provider between two calls.
use gologincase.Common.{
  ℕ, zero, suc, ◌≤◌, ◌≡◌, refl, List, [], ◌∷◌, some, Buffer, length, Table, find, emplace, erase,
  All, IsUnique, erase-IsUnique, arith, ap,
}
use gologincase.Provider.{
  Provider, AuthClient, Cookies, accepted, create, generate, add_client, rem_client, Call, add, rem,
  step, run,
}

-- A session is 32 letters from `a` to `z`.
abbrev pub IsSession : Buffer → Type 0
IsSession s = (length s ≡ 32) × All (λ c. (97 ≤ c) × (c ≤ 122)) s

-- An entry under a key is the accepted client of that number, under the one login.
pub record IsEntry (login : Buffer) (k : ℕ) (c : AuthClient) : Type 0 where
  pub keyed : c.id ≡ k
  pub is_accepted : c.status ≡ accepted
  pub shared_login : c.login ≡ login
  pub session_drawn : IsSession c.session

abbrev pub AllEntries : Buffer → Table AuthClient → Type 0
AllEntries login [] = Unit {0}
AllEntries login ((k, c) ∷ m) = IsEntry login k c × AllEntries login m

pub record Inv (p : Provider) : Type 0 where
  pub unique : IsUnique p.clients
  pub entries : AllEntries p.client_login p.clients

-- `std::uniform_int_distribution('a', 'z')` stays in its range.
abbrev pub DrawsLetters : (ℕ → ℕ) → Type 0
DrawsLetters dist = (i : ℕ) → (97 ≤ dist i) × (dist i ≤ 122)

generate-All :
    (dist : ℕ → ℕ)
    → DrawsLetters dist
    → (n i : ℕ) → All (λ c. (97 ≤ c) × (c ≤ 122)) (generate dist n i)
unfolding generate
generate-All dist h zero i = tt
generate-All dist h (suc n) i = (h i, generate-All dist h n (suc i))

length-generate : (dist : ℕ → ℕ) (n i : ℕ) → length (generate dist n i) ≡ n
unfolding generate
length-generate dist zero i = refl
length-generate dist (suc n) i = ap suc (length-generate dist n (suc i))

pub generate-IsSession : (dist : ℕ → ℕ) → DrawsLetters dist → IsSession (generate dist 32 0)
generate-IsSession dist h = (length-generate dist 32 0, generate-All dist h 32 0)

erase-AllEntries :
    (login : Buffer) (k : ℕ) (m : Table AuthClient)
    → AllEntries login m
    → AllEntries login (erase k m)
unfolding erase
erase-AllEntries login k [] h = tt
erase-AllEntries login k ((j, c) ∷ m) h = ground (arith, erase-AllEntries login k m h.1)

pub find-IsEntry :
    (login : Buffer) (k : ℕ) (m : Table AuthClient) (c : AuthClient)
    → AllEntries login m
    → find k m ≡ some c
    → IsEntry login k c
unfolding find
find-IsEntry login k [] c h e = ground arith
find-IsEntry login k ((j, d) ∷ m) c h e = ground (arith, find-IsEntry login k m c h.1)

pub create-Inv : (login pass : Buffer) → Inv (create login pass)
unfolding create
create-Inv login pass = record { unique = tt; entries = tt }

pub add_client-Inv :
    (p : Provider) (dist : ℕ → ℕ) (id : ℕ) (cookies : Cookies) (login pass : Buffer)
    → DrawsLetters dist
    → Inv p
    → Inv (add_client p dist id cookies login pass []).1
unfolding add_client emplace
add_client-Inv p dist id cookies login pass letters v =
    ground (arith, generate-IsSession dist letters)

rem_client-Inv :
    (p : Provider) (id : ℕ) (session : Buffer) → Inv p → Inv (rem_client p id session).1
unfolding rem_client
rem_client-Inv p id session v = ground (
  arith,
  erase-IsUnique id p.clients v.unique,
  erase-AllEntries p.client_login id p.clients v.entries,
)

-- The engine of a call draws letters.
abbrev pub IsFair : Call → Type 0
IsFair (add dist id cookies login pass) = DrawsLetters dist
IsFair (rem id session) = Unit {0}

pub step-Inv : (p : Provider) (c : Call) → IsFair c → Inv p → Inv (step p c)
unfolding step
step-Inv p (add dist id cookies login pass) f v = add_client-Inv p dist id cookies login pass f v
step-Inv p (rem id session) f v = rem_client-Inv p id session v

run_keeps_Inv : (p : Provider) (cs : List Call) → All IsFair cs → Inv p → Inv (run p cs)
unfolding run
run_keeps_Inv p [] f v = v
run_keeps_Inv p (c ∷ cs) f v = run_keeps_Inv (step p c) cs f.1 (step-Inv p c f.0 v)

-- After any calls on a new provider, whose engines draw letters from `a` to `z`, no client number
-- has two entries, and each entry is an accepted client under its own number and the configured
-- login, with a session of 32 such letters.
pub run-create-Inv :
    (login pass : Buffer) (cs : List Call) → All IsFair cs → Inv (run (create login pass) cs)
run-create-Inv login pass cs f = run_keeps_Inv (create login pass) cs f (create-Inv login pass)
