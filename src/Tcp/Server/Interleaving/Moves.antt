-- ===== src/Tcp/Server/Interleaving/Moves.antt =====
-- What the steps of a server make of its threads and tables keeps its invariant.
use gologincase.Common.{
  ℕ, ◌≡◌, ◌≢◌, ◌⊎◌, sym, ap, ◌∙◌, inl, inr, Bool-cases, true, none, some, is_some, Table, find,
  emplace, erase, put, find-emplace, find-erase, find-put, arith, ◌==◌,
}
use gologincase.Tcp.{Connection}
use gologincase.Tcp.Session.{create}
use gologincase.Tcp.Server.{State}
use gologincase.Tcp.Server.Interleaving.{
  Pc, created, serving, Phase, running, after_accept, System, update,
}
use gologincase.Tcp.Server.Interleaving.Invariant.{is_entered, Unused, tables, stores, Inv}

module _ {ℓ} {A : Type ℓ} (s : System A) (v : Inv s) where
  -- A thread moves on after it has entered its client, and the tables stay.
  pub Inv-moved :
      (next : State A) (o n : ℕ) (pc pc' : Pc)
      → s.thread o ≡ some (record { cid = n; pc = pc })
      → is_entered pc ≡ true
      → is_entered pc' ≡ true
      → next.client_list ≡ s.state.client_list
      → ((p : ℕ) → stores next.objects p ≡ stores s.state.objects p)
      → Inv (record s {
        state = next;
        thread = update s.thread o (some (record { cid = n; pc = pc' }));
      })
  Inv-moved next o n pc pc' at was is same kept = record {
    live = λ m p h. ground (arith, v.live m p);
    listed = λ m p h e. ground (arith, v.listed m p);
    unlisted = λ m p h e. ground (arith, v.unlisted m p);
    apart = λ m p q h k. ground (arith, v.apart m p q);
    stored = λ p h. ground (arith, v.stored p, kept p);
    held = λ m p h. ground (arith, v.held m p, kept p);
    owned = λ p h. rw same (owned p (sym (kept p) ∙ h));
  }
    where
      owned :
          (p : ℕ)
          → stores s.state.objects p ≡ true
          → (is_some (update s.thread o (some (record { cid = n; pc = pc' })) p) ≡ true)
            ⊎ ((m : ℕ) × (find m s.state.client_list ≡ some p))
      owned p h = elim (v.owned p h) [ inl t ↦ inl (ground (arith, t)) | inr l ↦ inr l ]

  pub Inv-accepted :
      (next : State A) (o n : ℕ)
      → s.thread o ≡ none
      → find o s.state.objects ≡ none
      → Unused s n
      → next.client_list ≡ s.state.client_list
      → next.objects ≡ put o (create n) s.state.objects
      → Inv (record s {
        state = next;
        thread = update s.thread o (some (record { cid = n; pc = created }));
        phase = after_accept s.phase;
      })
  Inv-accepted next o n free new unused same made = record {
    live = λ m p h. ground (arith, v.live m p, not_listed m p);
    listed = λ m p h e. ground (arith, v.listed m p);
    unlisted = λ m p h e. ground (arith, v.unlisted m p, unused.1);
    apart = λ m p q h k. ground (arith, v.apart m p q, unused.0 p, unused.0 q);
    stored = λ p h. ground (arith, v.stored p, find-put o p (create n) s.state.objects);
    held = λ m p h. ground (arith, v.held m p, find-put o p (create n) s.state.objects);
    owned = λ p h. rw same (owned p (ap (λ t. stores t p) (sym made) ∙ h));
  }
    where
      -- A new connection is not in the list.
      not_listed : (m p : ℕ) → find m s.state.client_list ≡ some p → p ≢ o
      not_listed m p h e = ground (arith, v.held m p)

      owned :
          (p : ℕ)
          → stores (put o (create n) s.state.objects) p ≡ true
          → (is_some (update s.thread o (some (record { cid = n; pc = created })) p) ≡ true)
            ⊎ ((m : ℕ) × (find m s.state.client_list ≡ some p))
      owned p h = elim (Bool-cases (o == p)) [
        | inl e ↦ inl (ground (arith, e))
        | inr e ↦ elim (v.owned p (ground (arith, find-put o p (create n) s.state.objects))) [
          | inl t ↦ inl (ground (arith, t))
          | inr l ↦ inr l
        ]
      ]

  pub Inv-entered :
      (next : State A) (o n : ℕ)
      → s.thread o ≡ some (record { cid = n; pc = created })
      → next.client_list ≡ emplace n o s.state.client_list
      → next.objects ≡ s.state.objects
      → Inv (record s {
        state = next;
        thread = update s.thread o (some (record { cid = n; pc = serving }));
      })
  Inv-entered next o n at same kept = record {
    live = λ m p h. ground (arith, v.live m p, find-emplace n m o s.state.client_list);
    listed = λ m p h e. ground (
      arith,
      v.listed m p,
      find-emplace n m o s.state.client_list,
      v.unlisted n o,
      v.apart m p o,
    );
    unlisted = λ m p h e.
        ground (arith, v.unlisted m p, find-emplace n m o s.state.client_list, v.apart m p o);
    apart = λ m p q h k. ground (arith, v.apart m p q);
    stored = λ p h. ground (arith, v.stored p);
    held = λ m p h. ground (arith, v.held m p, find-emplace n m o s.state.client_list, v.stored o);
    owned = λ p h. rw same (owned p (ap (λ t. stores t p) (sym kept) ∙ h));
  }
    where
      owned :
          (p : ℕ)
          → stores s.state.objects p ≡ true
          → (is_some (update s.thread o (some (record { cid = n; pc = serving })) p) ≡ true)
            ⊎ ((m : ℕ) × (find m (emplace n o s.state.client_list) ≡ some p))
      owned p h = elim (v.owned p h) [
        | inl t ↦ inl (ground (arith, t))
        | inr (m, l) ↦
            inr (m, ground (arith, l, find-emplace n m o s.state.client_list, v.unlisted n o))
      ]

  pub Inv-left :
      (next : State A) (o n : ℕ) (pc : Pc)
      → s.thread o ≡ some (record { cid = n; pc = pc })
      → is_entered pc ≡ true
      → next.client_list ≡ erase n s.state.client_list
      → next.objects ≡ erase o s.state.objects
      → Inv (record s { state = next; thread = update s.thread o none })
  Inv-left next o n pc at was same kept = record {
    live = λ m p h. ground (arith, v.live m p, find-erase n m s.state.client_list, v.listed n o);
    listed =
        λ m p h e. ground (arith, v.listed m p, find-erase n m s.state.client_list, v.apart m p o);
    unlisted = λ m p h e. ground (arith, v.unlisted m p, find-erase n m s.state.client_list);
    apart = λ m p q h k. ground (arith, v.apart m p q);
    stored = λ p h. ground (arith, v.stored p, find-erase o p s.state.objects);
    held = λ m p h. ground (
      arith,
      v.held m p,
      v.live m p,
      find-erase n m s.state.client_list,
      find-erase o p s.state.objects,
    );
    owned = λ p h. rw same (owned p (ap (λ t. stores t p) (sym kept) ∙ h));
  }
    where
      owned :
          (p : ℕ)
          → stores (erase o s.state.objects) p ≡ true
          → (is_some (update s.thread o none p) ≡ true)
            ⊎ ((m : ℕ) × (find m (erase n s.state.client_list) ≡ some p))
      owned p h = elim (v.owned p (ground (arith, find-erase o p s.state.objects))) [
        | inl t ↦ inl (ground (arith, t, find-erase o p s.state.objects))
        | inr (m, l) ↦ inr (
          m,
          ground (
            arith,
            l,
            v.listed n o,
            find-erase n m s.state.client_list,
            find-erase o p s.state.objects,
          ),
        )
      ]

  -- A thread ends after `stop` has been called, and its client stays in the list.
  pub Inv-finished :
      (next : State A) (o n : ℕ)
      → s.thread o ≡ some (record { cid = n; pc = serving })
      → s.phase ≢ running
      → tables next ≡ tables s.state
      → Inv (record s { state = next; thread = update s.thread o none })
  Inv-finished next o n at over same = record {
    live = λ m p h. ground (arith, v.live m p);
    listed = λ m p h e. ground (arith, v.listed m p);
    unlisted = λ m p h e. ground (arith, v.unlisted m p);
    apart = λ m p q h k. ground (arith, v.apart m p q);
    stored = λ p h. ground (arith, v.stored p);
    held = λ m p h. ground (arith, v.held m p);
    owned = λ p h.
        rw (ap (λ (t : Table ℕ × Table Connection). t.0) same)
          (owned p (ap (λ (t : Table ℕ × Table Connection). stores t.1 p) (sym same) ∙ h));
  }
    where
      owned :
          (p : ℕ)
          → stores s.state.objects p ≡ true
          → (is_some (update s.thread o none p) ≡ true)
            ⊎ ((m : ℕ) × (find m s.state.client_list ≡ some p))
      owned p h = elim (v.owned p h) [
        | inl t ↦ elim (Bool-cases (o == p)) [
          | inl e ↦ inr (n, ground (arith, e, v.listed n o))
          | inr e ↦ inl (ground (arith, t, e))
        ]
        | inr l ↦ inr l
      ]

  -- `stop` goes on.
  pub Inv-stopping :
      (next : State A) (phase : Phase)
      → phase ≢ running
      → tables next ≡ tables s.state
      → Inv (record s { state = next; phase = phase })
  Inv-stopping next phase over same = record {
    live = λ m p h. ground (arith, v.live m p);
    listed = λ m p h e. ground (arith, v.listed m p);
    unlisted = λ m p h e. ground (arith, v.unlisted m p);
    apart = v.apart;
    stored = λ p h. ground (arith, v.stored p);
    held = λ m p h. ground (arith, v.held m p);
    owned = λ p h.
        rw (ap (λ (t : Table ℕ × Table Connection). t.0) same)
          (v.owned p (ap (λ (t : Table ℕ × Table Connection). stores t.1 p) (sym same) ∙ h));
  }
