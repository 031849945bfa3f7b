-- ===== src/Packet/Layout.antt =====
-- The stores of `create_packet` leave the fields side by side.
use gologincase.Common.{
  ℕ, zero, suc, ◌+◌, ◌-◌, ◌≤◌, ◌<◌, ◌%◌, ◌^◌, ◌≡◌, refl, sym, ap, ◌≢◌, ◌≡⟨◌⟩◌, ◌∎, [], ◌∷◌, ◌++◌,
  Buffer, length, length-append, length-replicate, replicate, arith, le_bytes, length-le_bytes,
}
use mathlib.Core.List.{append_assoc, append-nil}
use native.Mathlib.Nat.{zero-add, suc-add}
use gologincase.Packet.{write_at, create_packet}

-- A store replaces what stands at its offset, and nothing else.
pub write_at-front :
    (new old post : Buffer) → length new ≡ length old → write_at 0 new (old ++ post) ≡ new ++ post
unfolding write_at
write_at-front [] [] post h = refl
write_at-front [] (o ∷ old) post h = absurd (omega arith)
write_at-front (n ∷ new) [] post h = absurd (omega arith)
write_at-front (n ∷ new) (o ∷ old) post h = ap (◌∷◌ n) (write_at-front new old post (omega arith))

write_at-middle :
    (o : ℕ) (pre new old post : Buffer)
    → o ≡ length pre
    → length new ≡ length old
    → write_at o new (pre ++ (old ++ post)) ≡ pre ++ (new ++ post)
unfolding write_at
write_at-middle zero [] new old post e h = write_at-front new old post h
write_at-middle zero (p ∷ pre) new old post e h = absurd (omega arith)
write_at-middle (suc o) [] new old post e h = absurd (omega arith)
write_at-middle (suc o) (p ∷ pre) new old post e h =
    ap (◌∷◌ p) (write_at-middle o pre new old post (omega arith) h)

write_at-end :
    (o : ℕ) (pre new old : Buffer)
    → o ≡ length pre
    → length new ≡ length old
    → write_at o new (pre ++ old) ≡ pre ++ new
write_at-end o pre new old e h =
    rw (append-nil old, append-nil new) at (write_at-middle o pre new old [] e h)

replicate-add : (a b x : ℕ) → replicate (a + b) x ≡ replicate a x ++ replicate b x
replicate-add zero b x = rw zero-add
replicate-add (suc a) b x = rw suc-add (ap (◌∷◌ x) (replicate-add a b x))

abbrev pub zeros : ℕ → Buffer
zeros n = replicate n 0

-- A zeroed packet, cut where the fields of a command of `k` bytes begin.
zeros-fields :
    (k n : ℕ)
    → k ≤ 16
    → zeros (32 + n) ≡ zeros 8 ++ (zeros 4 ++ (zeros k ++ (zeros (16 - k) ++ zeros (4 + n))))
zeros-fields k n h =
    rw
      (
        ← replicate-add (16 - k) (4 + n) 0,
        ← replicate-add k (16 - k + (4 + n)) 0,
        ← replicate-add 4 (k + (16 - k + (4 + n))) 0,
        ← replicate-add 8 (4 + (k + (16 - k + (4 + n)))) 0,
      )
      (ap zeros (omega arith))

module _ (cmd buff : Buffer) where
  -- The packet of a command that leaves room for its terminator.
  abbrev pub fields : Buffer
  fields =
      zeros 8
      ++ (le_bytes 4 (length buff % 2 ^ 32)
          ++ (cmd ++ (zeros (16 - length cmd) ++ (zeros 4 ++ buff))))

  create_packet-stores :
      buff ≢ []
      → length cmd < 16
      → create_packet cmd buff
        ≡ write_at 32 buff (
            write_at 12 cmd
              (write_at 8 (le_bytes 4 (length buff % 2 ^ 32)) (zeros (32 + length buff))))
  unfolding create_packet
  create_packet-stores ne lt = ground arith

  -- What the three stores leave, with the command's padding and the body held apart.
  stored :
      (pad tail : Buffer)
      → length pad ≡ 16 - length cmd
      → length cmd < 16
      → length tail ≡ length buff
      → (size : Buffer) → length size ≡ 4
      → write_at 32 buff (
          write_at 12 cmd (
            write_at 8 size
              (zeros 8 ++ (zeros 4 ++ (zeros (length cmd) ++ (pad ++ (zeros 4 ++ tail)))))))
        ≡ zeros 8 ++ (size ++ (cmd ++ (pad ++ (zeros 4 ++ buff))))
  stored pad tail p lt t size four =
      write_at 32 buff (
        write_at 12 cmd (
          write_at 8 size
            (zeros 8 ++ (zeros 4 ++ (zeros (length cmd) ++ (pad ++ (zeros 4 ++ tail)))))))
      ≡⟨ ap (λ v. write_at 32 buff (write_at 12 cmd v))
          (write_at-middle 8 (zeros 8) size (zeros 4) _ refl four) ⟩
        write_at 32 buff (
          write_at 12 cmd (zeros 8 ++ (size ++ (zeros (length cmd) ++ (pad ++ (zeros 4 ++ tail))))))
      ≡⟨ ap (write_at 32 buff) (
          write_at-middle 12 (zeros 8 ++ size) cmd (zeros (length cmd)) (pad ++ (zeros 4 ++ tail))
            (omega (arith, four)) (sym (length-replicate (length cmd) 0))) ⟩
        write_at 32 buff (zeros 8 ++ (size ++ (cmd ++ (pad ++ (zeros 4 ++ tail)))))
      ≡⟨ last ⟩ zeros 8 ++ (size ++ (cmd ++ (pad ++ (zeros 4 ++ buff)))) ∎
    where
      head : Buffer
      head = zeros 8 ++ (size ++ (cmd ++ (pad ++ zeros 4)))

      regroup : (x : Buffer) → zeros 8 ++ (size ++ (cmd ++ (pad ++ (zeros 4 ++ x)))) ≡ head ++ x
      regroup x = simp append_assoc

      head_size : 32 ≡ length head
      head_size = omega (
        arith,
        p,
        four,
        length-append size (cmd ++ (pad ++ zeros 4)),
        length-append cmd (pad ++ zeros 4),
        length-append pad (zeros 4),
      )

      last :
          write_at 32 buff (zeros 8 ++ (size ++ (cmd ++ (pad ++ (zeros 4 ++ tail)))))
          ≡ zeros 8 ++ (size ++ (cmd ++ (pad ++ (zeros 4 ++ buff))))
      last = rw (regroup tail, regroup buff) (write_at-end 32 head buff tail head_size (sym t))

  pub create_packet-fields : buff ≢ [] → length cmd < 16 → create_packet cmd buff ≡ fields
  create_packet-fields ne lt =
      rw
        (
          create_packet-stores ne lt,
          zeros-fields (length cmd) (length buff) (omega arith),
          replicate-add 4 (length buff) 0,
        )
        (stored (zeros (16 - length cmd)) (zeros (length buff)) (length-replicate _ 0) lt
          (length-replicate _ 0) (le_bytes 4 (length buff % 2 ^ 32)) (length-le_bytes 4 _))
