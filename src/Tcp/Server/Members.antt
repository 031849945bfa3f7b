-- ===== src/Tcp/Server/Members.antt =====
-- Who is in the server's tables.
use gologincase.Common.{
  ℕ, ◌≡◌, refl, inl, inr, Bool, List, [], ◌∷◌, ◌++◌, none, Buffer, Table, find, put, find-erase,
  arith, Option-cases,
}
use gologincase.Dispatcher.{Handler}
use gologincase.Tcp.Session.{Received, recv}
use gologincase.Tcp.Server.{State, Round, lost, handle, client_round, client_loop, after_recv}

-- Registrations with `server::handle`, one after another.
unfoldable pub handle_each {ℓ} : {H : Type ℓ} → (Buffer → ℕ) → List (Buffer × H) → Table H → Table H
handle_each hash [] handlers = handlers
handle_each hash ((cmd, h) ∷ rest) handlers = handle_each hash rest (handle hash cmd h handlers)

-- On a new server no call of `server::handle` registers anything: after any of them, no command has
-- a packet handler.
pub find-handle_each {ℓ} :
    {H : Type ℓ} (hash : Buffer → ℕ) (calls : List (Buffer × H)) (k : ℕ)
    → find k (handle_each hash calls []) ≡ none
unfolding handle_each handle find
find-handle_each hash [] k = refl
find-handle_each hash ((cmd, h) ∷ rest) k = find-handle_each hash rest k

module _ {ℓ} {A : Type ℓ} (accepts : ℕ → Buffer → Bool) (hash : Buffer → ℕ)
    (handlers : Table (Handler (State A))) where
  -- Neither the list nor the store has the client.
  abbrev IsGone : ℕ → ℕ → State A → Type 0
  IsGone cid object s = (find cid s.client_list ≡ none) × (find object s.objects ≡ none)

  after_recv-IsGone :
      (got : Received) (cid object : ℕ) (s : State A)
      → (after_recv accepts hash handlers got cid object s).0 ≡ lost
      → IsGone cid object (after_recv accepts hash handlers got cid object s).1
  unfolding after_recv
  after_recv-IsGone got cid object s h =
      ground (arith, find-erase cid cid s.client_list, find-erase object object s.objects)

  client_round-IsGone :
      (r : Round) (cid object : ℕ) (s : State A)
      → (client_round accepts hash handlers r cid object s).0 ≡ lost
      → IsGone cid object (client_round accepts hash handlers r cid object s).1
  unfolding client_round
  client_round-IsGone r cid object s h = elim (Option-cases (find object s.objects)) [
    | inl e ↦ ground (arith, e)
    | inr (c, e) ↦
        (let got = recv c r.memory r.answers in
          let read = record s {
            objects = put object got.conn s.objects;
            trace = s.trace ++ got.calls;
          } in
          ground (arith, e, after_recv-IsGone got cid object read))
  ]

  -- A client whose thread ends because `recv` failed is in no list any more, and its connection is
  -- destroyed, after any number of rounds.
  pub client_loop_lost :
      (rounds : List Round) (cid object : ℕ) (s : State A)
      → (client_loop accepts hash handlers rounds cid object s).0 ≡ lost
      → IsGone cid object (client_loop accepts hash handlers rounds cid object s).1
  unfolding client_loop
  client_loop_lost [] cid object s h = cc
  client_loop_lost (r ∷ rounds) cid object s h =
      let next = (client_round accepts hash handlers r cid object s).1 in
      ground (arith, client_round-IsGone r cid object s, client_loop_lost rounds cid object next)
