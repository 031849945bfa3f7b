-- ===== src/Dispatcher/Routes.antt =====
-- Which handler a command reaches after a list of registrations.
use gologincase.Common.{
  ℕ, ◌≡◌, refl, ap, ◌∙◌, Bool, true, false, not, ◌&&◌, List, [], ◌∷◌, Option, none, some, Buffer,
  Table, find, emplace, find-emplace, is_some, if◌then◌else◌, ◌==◌, arith, Option-cases, inl, inr,
}
use gologincase.Provider.{Cookies}
use gologincase.Dispatcher.{Handler, Outcome, handle, handle_all, dispatch}

module _ {ℓ} {S : Type ℓ} (hash : Buffer → ℕ) where
  -- The handler that a list of routes has for a hash.
  unfoldable pub route : ℕ → List (Buffer × Handler S) → Option (Handler S)
  route k [] = none
  route k ((c, h) ∷ rest) = if hash c == k then some h else route k rest

  -- The hashes of the commands differ.
  unfoldable pub distinct_routes : List (Buffer × Handler S) → Bool
  unfolding route
  distinct_routes [] = true
  distinct_routes ((c, h) ∷ rest) = not (is_some (route (hash c) rest)) && distinct_routes rest

  -- No command of the list has its hash in the table.
  all_free : Table (Handler S) → List (Buffer × Handler S) → Bool
  all_free t [] = true
  all_free t ((c, h) ∷ rest) = not (is_some (find (hash c) t)) && all_free t rest

  handle_lem :
      (c : Buffer) (h : Handler S) (t : Table (Handler S))
      → handle hash c h t
        ≡ (if is_some (find (hash c) t) then none else some (emplace (hash c) h t))
  unfolding handle
  handle_lem c h t = ground arith

  all_free-emplace :
      (c : Buffer) (h : Handler S) (t : Table (Handler S)) (rest : List (Buffer × Handler S))
      → find (hash c) t ≡ none
      → all_free (emplace (hash c) h t) rest
        ≡ not (is_some (route (hash c) rest)) && all_free t rest
  unfolding all_free route
  all_free-emplace c h t [] e = refl
  all_free-emplace c h t ((d, g) ∷ rest) e =
      ground (arith, find-emplace (hash c) (hash d) h t, all_free-emplace c h t rest)

  handle_all-is_some :
      (routes : List (Buffer × Handler S)) (t : Table (Handler S))
      → is_some (handle_all hash routes t) ≡ all_free t routes && distinct_routes routes
  unfolding handle_all all_free distinct_routes
  handle_all-is_some [] t = refl
  handle_all-is_some ((c, h) ∷ rest) t = ground (
    arith,
    handle_lem c h t,
    all_free-emplace c h t rest,
    handle_all-is_some rest (emplace (hash c) h t),
  )

  -- An entry that is there stays; a free hash gets its route.
  abbrev first : Option (Handler S) → Option (Handler S) → Option (Handler S)
  first (some g) r = some g
  first none r = r

  handle_all-find :
      (routes : List (Buffer × Handler S)) (t t' : Table (Handler S))
      → handle_all hash routes t ≡ some t'
      → (k : ℕ) → find k t' ≡ first (find k t) (route k routes)
  unfolding handle_all route
  handle_all-find [] t t' e k = ground arith
  handle_all-find ((c, h) ∷ rest) t t' e k = elim (Option-cases (find (hash c) t)) [
    | inl free ↦ ground (
      arith,
      free,
      handle_lem c h t,
      handle_all-find rest (emplace (hash c) h t) t',
      handle_all-find rest (emplace (hash c) h t) t' (ground (arith, handle_lem c h t)) k,
      find-emplace (hash c) k h t,
    )
    | inr (g, taken) ↦ ground (arith, handle_lem c h t)
  ]

  -- What `dispatch` does with the handler that it finds.
  abbrev pub serve : Option (Handler S) → Buffer → Cookies → Buffer → Buffer → S → Outcome S × Bool
  serve (some h) cmd cookies input out s = let r = h cmd cookies input out s in (r, not r.raised)
  serve none cmd cookies input out s =
      (record { cmd = cmd; out = out; state = s; raised = false }, false)

  dispatch-serve :
      (t : Table (Handler S)) (cmd : Buffer) (cookies : Cookies) (input out : Buffer) (s : S)
      → dispatch hash t cmd cookies input out s ≡ serve (find (hash cmd) t) cmd cookies input out s
  unfolding dispatch
  dispatch-serve t cmd cookies input out s = ground arith

  all_free-nil : (routes : List (Buffer × Handler S)) → all_free [] routes ≡ true
  unfolding all_free find
  all_free-nil [] = refl
  all_free-nil ((c, h) ∷ rest) = all_free-nil rest

  handle_all-new :
      (routes : List (Buffer × Handler S))
      → is_some (handle_all hash routes []) ≡ distinct_routes routes
  handle_all-new routes =
      handle_all-is_some routes [] ∙ ap (λ b. b && distinct_routes routes) (all_free-nil routes)

  find-new :
      (routes : List (Buffer × Handler S)) (t : Table (Handler S))
      → handle_all hash routes [] ≡ some t
      → (k : ℕ) → find k t ≡ route k routes
  unfolding find
  find-new routes t e k = handle_all-find routes [] t e k

  -- Registrations on a new dispatcher succeed exactly if the commands have different hashes; then
  -- each command is dispatched to the handler registered under its hash, whatever its text is, and
  -- a command of another hash is refused with the state, the command and the output unchanged.
  pub dispatch_routes :
      (routes : List (Buffer × Handler S))
      → (distinct_routes routes ≡ false → handle_all hash routes [] ≡ none)
        × (distinct_routes routes ≡ true
            → (t : Table (Handler S)) × (handle_all hash routes [] ≡ some t)
              × ((cmd : Buffer) (cookies : Cookies) (input out : Buffer) (s : S)
                  → dispatch hash t cmd cookies input out s
                    ≡ serve (route (hash cmd) routes) cmd cookies input out s))
  dispatch_routes routes = (λ d. ground (arith, handle_all-new routes), λ d. served d)
    where
      served :
          distinct_routes routes ≡ true
          → (t : Table (Handler S)) × (handle_all hash routes [] ≡ some t)
            × ((cmd : Buffer) (cookies : Cookies) (input out : Buffer) (s : S)
                → dispatch hash t cmd cookies input out s
                  ≡ serve (route (hash cmd) routes) cmd cookies input out s)
      served d = elim (Option-cases (handle_all hash routes [])) [
        | inl e ↦ absurd (ground (arith, handle_all-new routes))
        | inr (t, e) ↦ (
          t,
          e,
          λ cmd cookies input out s.
              dispatch-serve t cmd cookies input out s
              ∙ ap (λ h. serve h cmd cookies input out s) (find-new routes t e (hash cmd)),
        )
      ]
