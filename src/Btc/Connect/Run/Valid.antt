-- ===== src/Btc/Connect/Run/Valid.antt =====
-- What a valid run of headers is, and that the validation loop accepts exactly these.
use rsk.Prelude.{
  ℕ, ◌+◌, ◌-◌, ◌%◌, ◌<◌, ◌≡◌, ◌≢◌, refl, ◌↔◌, inl, inr, true, Option, some, List, [], ◌∷◌, arith,
  ==_iff, Bool-cases, Option-cases, add_u64, u64_mod,
}
use rsk.Bitcoin.{Bitcoin, Network}
use rsk.Result.{ok, chain-eq-ok}
use rsk.Btc.Validation.{difficulty_period, enforces_difficulty, expected_bits, median_time_past_at}
use rsk.Btc.Connect.Run.{period_start, check_difficulty, check_time, check_header, check_headers}

module _ {Header : Type 0} (lib : Bitcoin Header) (net : Network) (at : ℕ → Option Header) where
  abbrev parent_at : ℕ → Option Header
  parent_at height = at ((height + u64_mod - 1) % u64_mod)

  -- The header at a height behind the block `prev`. Where the network has the retarget rule, the
  -- header below is known, `bits` are its bits inside a period, and at a period's first block the
  -- retarget of the period before, if the first header of that one is known.
  pub record ValidHeader (height prev : ℕ) (h : Header) : Type 0 where
    pub link : lib.prev_blockhash h ≡ prev
    pub has_parent : enforces_difficulty lib net ≡ true → (p : Header) × (parent_at height ≡ some p)
    pub same_bits :
        (p : Header)
        → enforces_difficulty lib net ≡ true
        → parent_at height ≡ some p
        → height % difficulty_period ≢ 0
        → lib.bits h ≡ lib.bits p
    pub retargeted :
        (p first : Header)
        → enforces_difficulty lib net ≡ true
        → parent_at height ≡ some p
        → height % difficulty_period ≡ 0
        → period_start lib net at height ≡ some first
        → lib.bits h ≡ lib.retarget net first p
    pub after_median :
        (median : ℕ) → median_time_past_at lib at height ≡ some median → median < lib.time h
    pub works : lib.pow_ok h ≡ true

  pub data ValidRun : ℕ → ℕ → List Header → Type 0 where
    done : {height prev : ℕ} → ValidRun height prev []
    next :
        {height prev : ℕ} {h : Header} {todo : List Header}
        → ValidHeader height prev h
        → ValidRun (add_u64 height 1) (lib.block_hash h) todo
        → ValidRun height prev (h ∷ todo)

  check_header_sound :
      (height prev : ℕ) (h : Header)
      → check_header lib net at height prev h ≡ ok tt
      → ValidHeader height prev h
  unfolding check_header check_difficulty check_time expected_bits
  check_header_sound height prev h e = record {
    link = ground arith;
    has_parent = λ on. ground arith;
    same_bits = λ p on there off. ground arith;
    retargeted = λ p first on there zero start. ground arith;
    after_median = λ median m. ground arith;
    works = ground arith;
  }

  check_difficulty_complete :
      (height prev : ℕ) (h : Header)
      → ValidHeader height prev h
      → check_difficulty lib net at height h ≡ ok tt
  unfolding check_difficulty expected_bits
  check_difficulty_complete height prev h v = elim (Bool-cases (enforces_difficulty lib net)) [
    | inr off ↦ unfold enforces_difficulty in ground arith
    | inl on ↦
        let (p, there) = v.has_parent on in
        elim (Option-cases (period_start lib net at height)) [
          | inl no_start ↦ ground (arith, v.same_bits p on there)
          | inr (first, start) ↦ ground (
            arith,
            v.same_bits p on there,
            λ (z : height % difficulty_period ≡ 0). v.retargeted p first on there z start,
          )
        ]
  ]

  check_time_complete :
      (height prev : ℕ) (h : Header)
      → ValidHeader height prev h
      → check_time lib net at height h ≡ ok tt
  unfolding check_time
  check_time_complete height prev h v = elim (Option-cases (median_time_past_at lib at height)) [
    | inl no_median ↦ rw (no_median, check_time)
    | inr (median, m) ↦ rw (m, check_time) (ground (arith, v.after_median median m))
  ]

  check_header_complete :
      (height prev : ℕ) (h : Header)
      → ValidHeader height prev h
      → check_header lib net at height prev h ≡ ok tt
  unfolding check_header
  check_header_complete height prev h v =
      rw
        (
          (==_iff (lib.prev_blockhash h) prev).1 v.link,
          check_difficulty_complete height prev h v,
          check_time_complete height prev h v,
          v.works,
        )
        refl

  pub check_headers_iff_valid :
      (todo : List Header) (height prev : ℕ)
      → (check_headers lib net at height prev todo ≡ ok tt) ↔ ValidRun height prev todo
  unfolding check_headers
  check_headers_iff_valid [] height prev = (λ _. done, λ _. refl)
  check_headers_iff_valid (h ∷ todo) height prev =
      let ih = check_headers_iff_valid todo (add_u64 height 1) (lib.block_hash h) in
      (
        λ e.
            let (u, first, rest) =
              chain-eq-ok (check_header lib net at height prev h)
                (λ _. check_headers lib net at (add_u64 height 1) (lib.block_hash h) todo) e in
            next (check_header_sound height prev h first) (ih.0 rest),
        go ih,
      )
    where
      go :
          ((check_headers lib net at (add_u64 height 1) (lib.block_hash h) todo ≡ ok tt)
            ↔ ValidRun (add_u64 height 1) (lib.block_hash h) todo)
          → ValidRun height prev (h ∷ todo)
          → check_headers lib net at height prev (h ∷ todo) ≡ ok tt
      go ih (next v rest) = rw (check_header_complete height prev h v, ih.1 rest) refl
