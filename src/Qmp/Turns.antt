-- ===== src/Qmp/Turns.antt =====
-- internal/qmp/qmp.go: the loop of `acquire` ends, and misses no lock that it could have had.
use packer_qemu_mcp_server.Prelude.{
  ℕ, zero, suc, ◌+◌, ◌*◌, ◌≤◌, ◌<◌, ltb, ◌==◌, ap, ◌≡◌, refl, arith, Bool, true, false, none, some,
  Bool-cases, inl, inr, ltb→lt,
}
use packer_qemu_mcp_server.Qmp.Runs.{Acquired, locked, taken}
use packer_qemu_mcp_server.Qmp.Polling.{pause, poll, acquire}

module _ (deadline : ℕ) (grants : ℕ → Bool) (times : ℕ → ℕ) where
  -- How the askings from one on come to an end.
  data Turn : ℕ → Acquired → Type 0 where
    granted : (k : ℕ) → grants k ≡ true → Turn k (locked (times k))
    late : (k : ℕ) → grants k ≡ false → deadline < times k → Turn k taken
    again :
        (k : ℕ) {a : Acquired} → grants k ≡ false → times k ≤ deadline → Turn (suc k) a → Turn k a

  -- Each asking is late by then, or ten milliseconds behind the last.
  poll-Turn :
      (n k : ℕ)
      → ((j : ℕ) → times j + pause ≤ times (suc j))
      → deadline < times k + n * pause
      → (a : Acquired) × (poll deadline grants times (suc n) k ≡ some a) × Turn k a
  unfolding poll
  poll-Turn zero k ticks enough = elim (Bool-cases (grants k)) [
    | inl e ↦ (locked (times k), rw (poll, e) refl, granted k e)
    | inr e ↦
        let past : ltb deadline (times k) ≡ true = ground (arith, enough) in
        (taken, rw (poll, e, past) refl, late k e (omega (arith, enough)))
  ]
  poll-Turn (suc n) k ticks enough = elim (Bool-cases (grants k)) [
    | inl e ↦ (locked (times k), rw (poll, e) refl, granted k e)
    | inr e ↦ elim (Bool-cases (ltb deadline (times k))) [
      | inl e1 ↦ (taken, rw (poll, e, e1) refl, late k e (ltb→lt deadline (times k) e1))
      | inr e1 ↦
          let (a, found, turn) = poll-Turn n (suc k) ticks (omega (arith, enough, ticks k)) in
          (a, rw (e, e1) found, again k e (ground (arith, e1)) turn)
    ]
  ]

  other : (k m : ℕ) → grants k ≡ false → grants m ≡ true → k ≤ m → suc k ≤ m
  other k m e h below = elim (Bool-cases (k == m)) [
    | inl same ↦ let here : k ≡ m = ground (arith, same) in absurd (cc (ap grants here, e, h))
    | inr apart ↦ ground (arith, apart, below)
  ]

  -- A lock that is granted to an asking by the deadline is not missed.
  Turn-granted :
      {k : ℕ} {a : Acquired}
      → Turn k a
      → ((i j : ℕ) → i ≤ j → times i ≤ times j)
      → (m : ℕ) → k ≤ m
      → grants m ≡ true
      → times m ≤ deadline
      → (j : ℕ) × (a ≡ locked (times j)) × (times j ≤ times m)
  Turn-granted (granted k e) order m below h by = (k, refl, order k m below)
  Turn-granted (late k e past) order m below h by =
      absurd (omega (arith, past, by, order k m below))
  Turn-granted (again k e early turn) order m below h by =
      Turn-granted turn order m (other k m e h below) h by

-- The times of the askings, ten milliseconds apart at least.
abbrev pub Ticks : (ℕ → ℕ) → Type 0
Ticks times = (j : ℕ) → times j + pause ≤ times (suc j)

Ticks-order : (times : ℕ → ℕ) → Ticks times → (i j : ℕ) → i ≤ j → times i ≤ times j
Ticks-order times ticks i zero below =
    let here : i ≡ 0 = omega (arith, below) in omega (arith, ap times here)
Ticks-order times ticks i (suc j) below = elim (Bool-cases (i == suc j)) [
  | inl same ↦ let here : i ≡ suc j = ground (arith, same) in omega (arith, ap times here)
  | inr apart ↦
      let before : i ≤ j = ground (arith, apart, below) in
      omega (arith, ticks j, Ticks-order times ticks i j before)
]

-- Of a goroutine that the channel lets in: it asks for the lock as often as its budget of time has
-- steps of ten milliseconds, and twice more, at most, and then has it or gives up; and a lock that
-- the system grants to an asking by the deadline it has, from that asking or an earlier one on.
pub acquire_ends :
    (deadline n : ℕ) (grants : ℕ → Bool) (times : ℕ → ℕ)
    → Ticks times
    → deadline < times 0 + n * pause
    → (a : Acquired) × (acquire deadline grants times (suc n) true none ≡ some a)
      × ((m : ℕ)
          → grants m ≡ true
          → times m ≤ deadline
          → (j : ℕ) × (a ≡ locked (times j)) × (times j ≤ times m))
unfolding acquire
acquire_ends deadline n grants times ticks enough =
    let (a, found, turn) = poll-Turn deadline grants times n 0 ticks enough in
    (
      a,
      found,
      λ m h by.
          Turn-granted deadline grants times turn (Ticks-order times ticks) m (omega arith) h by,
    )
