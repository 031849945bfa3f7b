-- ===== src/Tcp/Server/Interleaving/Endings.antt =====
-- The end of one thread of a server whose `stop` has been called.
use gologincase.Common.{
  ℕ, ◌≡◌, ◌≢◌, refl, ◌∙◌, inl, inr, Bool, true, false, [], Option, none, some, Buffer, Table, find,
  arith, Option-cases,
}
use gologincase.Packet.{cmd_of}
use gologincase.Dispatcher.{Handler}
use gologincase.Tcp.{Connection}
use gologincase.Tcp.Errors.{wsa_none, no_error}
use gologincase.Tcp.Session.{Answers, Received, got, recv, give_up}
use gologincase.Tcp.Server.{State, packet_handler}
use gologincase.Tcp.Server.Interleaving.{
  Pc, created, serving, reading, handling, closing, running, Thread, System, Step, enter, finish,
  break, handle, leave, Reach, here, later,
}
use gologincase.Tcp.Server.Interleaving.Invariant.{Unused, Inv}

-- The peer has closed the connection.
abbrev closed : Answers
closed = record {
  header = got [];
  body = got [];
  last_error = wsa_none;
  so_error = no_error;
  ioctl_done = true;
}

recv-closed : (c : Connection) → (recv c [] closed).ok ≡ false
unfolding recv give_up
recv-closed c = refl

-- A thread that handles a packet whose header names a command, and one whose `recv` has failed.
abbrev pub IsSound : Option Thread → Type 0
IsSound none = Unit {0}
IsSound (some t) = elim t.pc [
  | created ↦ Unit {0}
  | serving ↦ Unit {0}
  | reading ↦ Unit {0}
  | handling header buff ↦ (cmd : Buffer) × (cmd_of header ≡ some cmd)
  | closing r ↦ r.ok ≡ false
]

module _ {ℓ} {A : Type ℓ} (accepts : ℕ → Buffer → Bool) (hash : Buffer → ℕ)
    (handlers : Table (Handler (State A))) where
  abbrev pub Goes : System A → System A → Type ℓ
  Goes = Reach accepts hash handlers Unused

  pub Reach-trans : {s t u : System A} → Goes s t → Goes t u → Goes s u
  Reach-trans r here = r
  Reach-trans r (later q st) = later (Reach-trans r q) st

  -- What the end of one thread leaves of the others.
  abbrev pub Ends : ℕ → System A → System A → Type 0
  Ends o s t =
      (t.thread o ≡ none) × ((p : ℕ) → o ≢ p → t.thread p ≡ s.thread p) × (t.phase ≡ s.phase)

  Ends-serving :
      (s : System A) (o n : ℕ)
      → s.thread o ≡ some (record { cid = n; pc = serving })
      → s.phase ≢ running
      → (t : System A) × Goes s t × Ends o s t
  Ends-serving s o n at over =
      (_, later here (finish o n at over), (ground arith, (λ p ne. ground arith), refl))

  Ends-closing :
      (s : System A) (o n : ℕ) (r : Received)
      → s.thread o ≡ some (record { cid = n; pc = closing r })
      → r.ok ≡ false
      → (t : System A) × Goes s t × Ends o s t
  Ends-closing s o n r at lost =
      (_, later here (leave o n r at lost), (ground arith, (λ p ne. ground arith), refl))

  -- A step of the thread, and then its end.
  Ends-step :
      (s t : System A) (o : ℕ)
      → Step accepts hash handlers Unused s t
      → ((p : ℕ) → o ≢ p → t.thread p ≡ s.thread p)
      → t.phase ≡ s.phase
      → ((u : System A) × Goes t u × Ends o t u)
      → (u : System A) × Goes s u × Ends o s u
  Ends-step s t o st same phase (u, r, (gone, others, still)) =
      (u, Reach-trans (later here st) r, (gone, (λ p ne. others p ne ∙ same p ne), still ∙ phase))

  handled :
      (n : ℕ) (header buff : Buffer) (o : ℕ) (s : State A) (cmd : Buffer)
      → cmd_of header ≡ some cmd
      → (next : State A) × (packet_handler accepts hash handlers n header buff o s ≡ some next)
  unfolding packet_handler
  handled n header buff o s cmd e =
      elim (Option-cases (packet_handler accepts hash handlers n header buff o s)) [
        | inl q ↦ absurd (ground (arith, q, e))
        | inr done ↦ done
      ]

  pub Ends-thread :
      (s : System A) (o n : ℕ) (pc : Pc)
      → Inv s
      → s.phase ≢ running
      → s.thread o ≡ some (record { cid = n; pc = pc })
      → IsSound (some (record { cid = n; pc = pc }))
      → (u : System A) × Goes s u × Ends o s u
  Ends-thread s o n created v over at sound =
      Ends-step s _ o (enter o n at) (λ p ne. ground arith) refl
        (Ends-serving _ o n (ground arith) over)
  Ends-thread s o n serving v over at sound = Ends-serving s o n at over
  Ends-thread s o n reading v over at sound = elim (Option-cases (find o s.state.objects)) [
    | inl e ↦ absurd (ground (arith, v.stored o))
    | inr (c, e) ↦
        Ends-step s _ o (break o n c [] closed at e (recv-closed c)) (λ p ne. ground arith) refl
          (Ends-closing _ o n (recv c [] closed) (ground arith) (recv-closed c))
  ]
  Ends-thread s o n (handling header buff) v over at sound =
      let done = handled n header buff o s.state sound.0 sound.1 in
      Ends-step s _ o (handle o n header buff done.0 at done.1) (λ p ne. ground arith) refl
        (Ends-serving _ o n (ground arith) over)
  Ends-thread s o n (closing r) v over at sound = Ends-closing s o n r at sound
