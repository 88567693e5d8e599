-- ===== src/Common/I2c/Sessions.antt =====
-- What the functions of the bus do, from the laws of the service.
use horizon_oc.Prelude.{
  truthy, ◌==◌, ◌||◌, not, ℕ, zero, suc, ◌-◌, ◌≡◌, refl, sym, ap, ◌∙◌, ◌⊎◌, inl, inr, true, false,
  List, [], ◌∷◌, Bool-cases, arith,
}
use horizon_oc.Common.I2c.{I2cBus, i2c_set_u8, i2c_read_out, read_rounds, set_mv_out}
use horizon_oc.Common.I2c.Convert.{Domain, merged}

-- What is known of the service. It counts the sessions that are open, and knows the device of the
-- last one; a device answers with what its registers hold, and a write that succeeds sets one.
pub record I2cLaws (S : Type 0) (bus : I2cBus S) : Type 0 where
  pub sessions : S → ℕ
  pub device_of : S → ℕ
  pub register : S → ℕ → ℕ → ℕ
  pub opened :
      (dev : ℕ) (s : S)
      → truthy (bus.open_session dev s).0 ≡ false
      → (sessions (bus.open_session dev s).1 ≡ suc (sessions s))
        × (device_of (bus.open_session dev s).1 ≡ dev)
  pub refused :
      (dev : ℕ) (s : S)
      → truthy (bus.open_session dev s).0 ≡ true
      → sessions (bus.open_session dev s).1 ≡ sessions s
  pub sent : (bytes : List ℕ) (s : S) → sessions (bus.send_auto bytes s).1 ≡ sessions s
  pub received : (s : S) → sessions (bus.receive_auto s).2 ≡ sessions s
  pub closed : (s : S) → sessions (bus.session_close s) ≡ sessions s - 1
  pub open_keeps : (dev : ℕ) (s : S) → register (bus.open_session dev s).1 ≡ register s
  pub ask_keeps : (reg : ℕ) (s : S) → register (bus.send_auto (reg ∷ []) s).1 ≡ register s
  pub receive_keeps : (s : S) → register (bus.receive_auto s).2 ≡ register s
  pub close_keeps : (s : S) → register (bus.session_close s) ≡ register s
  pub written :
      (reg val : ℕ) (s : S)
      → truthy (bus.send_auto (reg ∷ val ∷ []) s).0 ≡ false
      → register (bus.send_auto (reg ∷ val ∷ []) s).1 (device_of s) reg ≡ val
  pub answered :
      (reg : ℕ) (s : S)
      → truthy (bus.send_auto (reg ∷ []) s).0 ≡ false
      → truthy (bus.receive_auto (bus.send_auto (reg ∷ []) s).1).0 ≡ false
      → (bus.receive_auto (bus.send_auto (reg ∷ []) s).1).1 ≡ register s (device_of s) reg

module _ {S : Type 0} (bus : I2cBus S) (laws : I2cLaws S bus) where
  after_close : (n : ℕ) (t : S) → laws.sessions t ≡ suc n → laws.sessions (bus.session_close t) ≡ n
  after_close n t e = omega (arith, laws.closed t)

  set_u8-sessions :
      (dev reg val : ℕ) (s : S) → laws.sessions (i2c_set_u8 bus dev reg val s).1 ≡ laws.sessions s
  unfolding i2c_set_u8
  set_u8-sessions dev reg val s =
      let opened = (bus.open_session dev s).1 in
      elim (Bool-cases (truthy (bus.open_session dev s).0)) [
        | inl failed ↦ rw failed (laws.refused dev s failed)
        | inr ok ↦ rw ok (
            after_close (laws.sessions s) (bus.send_auto (reg ∷ val ∷ []) opened).1
              (laws.sent (reg ∷ val ∷ []) opened ∙ (laws.opened dev s ok).0))
      ]

  -- What a read leaves: the sessions and the registers as they were, and the register's value if it
  -- succeeds.
  pub record WasRead (dev reg out : ℕ) (s : S) (r : ℕ × ℕ × S) : Type 0 where
    pub balanced : laws.sessions r.2 ≡ laws.sessions s
    pub registers : laws.register r.2 ≡ laws.register s
    pub result : (truthy r.0 ≡ true) ⊎ ((truthy r.0 ≡ false) × (r.1 ≡ laws.register s dev reg))

  pub read_out-WasRead :
      (dev reg out : ℕ) (s : S) → WasRead dev reg out s (i2c_read_out bus dev reg out s)
  unfolding i2c_read_out
  read_out-WasRead dev reg out s =
      let opened = (bus.open_session dev s).1 in
      let asked = (bus.send_auto (reg ∷ []) opened).1 in
      let after = (bus.receive_auto asked).2 in
      elim (Bool-cases (truthy (bus.open_session dev s).0)) [
        | inl failed ↦ rw failed (record {
          balanced = laws.refused dev s failed;
          registers = laws.open_keeps dev s;
          result = inl failed;
        })
        | inr ok ↦
            let one_open = laws.sent (reg ∷ []) opened ∙ (laws.opened dev s ok).0 in
            let unchanged = laws.ask_keeps reg opened ∙ laws.open_keeps dev s in
            elim (Bool-cases (truthy (bus.send_auto (reg ∷ []) opened).0)) [
              | inl lost ↦
                  rw (ok, lost)
                    (record {
                      balanced = after_close (laws.sessions s) asked one_open;
                      registers = laws.close_keeps asked ∙ unchanged;
                      result = inl lost;
                    })
              | inr sent ↦
                  let closing =
                    after_close (laws.sessions s) after (laws.received asked ∙ one_open) in
                  let kept = laws.close_keeps after ∙ laws.receive_keeps asked ∙ unchanged in
                  elim (Bool-cases (truthy (bus.receive_auto asked).0)) [
                    | inl silent ↦
                        rw (ok, sent, silent)
                          (record { balanced = closing; registers = kept; result = inl silent })
                    | inr heard ↦
                        let value =
                          laws.answered reg opened sent heard
                          ∙ ap (λ (f : ℕ → ℕ → ℕ). f (laws.device_of opened) reg)
                              (laws.open_keeps dev s)
                          ∙ ap (λ (k : ℕ). laws.register s k reg) (laws.opened dev s ok).1 in
                        rw (ok, sent, heard)
                          (record {
                            balanced = closing;
                            registers = kept;
                            result = inr (refl, value);
                          })
                  ]
            ]
      ]

  -- A write that succeeds.
  pub set_u8-register :
      (dev reg val : ℕ) (s : S)
      → truthy (i2c_set_u8 bus dev reg val s).0 ≡ false
      → laws.register (i2c_set_u8 bus dev reg val s).1 dev reg ≡ val
  unfolding i2c_set_u8
  set_u8-register dev reg val s ok =
      let opened = (bus.open_session dev s).1 in
      let sent = bus.send_auto (reg ∷ val ∷ []) opened in
      elim (Bool-cases (truthy (bus.open_session dev s).0)) [
        | inl failed ↦ let no_error = rw failed at ok in absurd (cc)
        | inr open_ok ↦
            let good : truthy sent.0 ≡ false = rw open_ok at ok in
            rw open_ok (
              ap (λ (f : ℕ → ℕ → ℕ). f dev reg) (laws.close_keeps sent.1)
              ∙ ap (λ (k : ℕ). laws.register sent.1 k reg) (sym (laws.opened dev s open_ok).1)
              ∙ laws.written reg val opened good)
      ]

  pub read_rounds-balanced :
      (d : Domain) (n val : ℕ) (s : S)
      → (laws.sessions (read_rounds bus d n val s).1 ≡ laws.sessions s)
        × (laws.register (read_rounds bus d n val s).1 ≡ laws.register s)
  unfolding read_rounds
  read_rounds-balanced d zero val s = (refl, refl)
  read_rounds-balanced d (suc n) val s =
      let r = i2c_read_out bus d.device d.reg val s in
      let was = read_out-WasRead d.device d.reg val s in
      let (rest, rest_kept) = read_rounds-balanced d n r.1 r.2 in
      elim (Bool-cases (truthy r.0)) [
        | inl failed ↦ rw failed (was.balanced, was.registers)
        | inr ok ↦ elim (Bool-cases (not (truthy d.por_val) || not (r.1 == d.por_val))) [
          | inl fresh ↦ rw (ok, fresh) (was.balanced, was.registers)
          | inr stale ↦ rw (ok, stale) (rest ∙ was.balanced, rest_kept ∙ was.registers)
        ]
      ]

  -- Whatever the bus answers, `I2c_BuckConverter_SetMvOut` closes the sessions that it opens.
  pub set_mv_out-sessions :
      (d : Domain) (mvolt : ℕ) (s : S)
      → laws.sessions (set_mv_out bus d mvolt s).1 ≡ laws.sessions s
  unfolding set_mv_out
  set_mv_out-sessions d mvolt s =
      let first = i2c_read_out bus d.device d.reg 0 s in
      let wanted = merged d first.1 mvolt in
      let set = i2c_set_u8 bus d.device d.reg wanted first.2 in
      let again = i2c_read_out bus d.device d.reg 0 set.1 in
      let one = (read_out-WasRead d.device d.reg 0 s).balanced in
      let two = set_u8-sessions d.device d.reg wanted first.2 ∙ one in
      let three = (read_out-WasRead d.device d.reg 0 set.1).balanced ∙ two in
      elim (Bool-cases (truthy first.0)) [
        | inl a ↦ rw a one
        | inr a ↦ elim (Bool-cases (truthy set.0)) [
          | inl b ↦ rw (a, b) two
          | inr b ↦ elim (Bool-cases (truthy again.0)) [
            | inl c ↦ rw (a, b, c) three
            | inr c ↦ elim (Bool-cases (not (again.1 == wanted))) [
              | inl e ↦ rw (a, b, c, e) three
              | inr e ↦ rw (a, b, c, e) three
            ]
          ]
        ]
      ]

  -- When it succeeds, the register has the bits of the voltage replaced and the others as before.
  pub set_mv_out-register :
      (d : Domain) (mvolt : ℕ) (s : S)
      → (set_mv_out bus d mvolt s).0 ≡ 0
      → laws.register (set_mv_out bus d mvolt s).1 d.device d.reg
        ≡ merged d (laws.register s d.device d.reg) mvolt
  unfolding set_mv_out
  set_mv_out-register d mvolt s ok =
      let first = i2c_read_out bus d.device d.reg 0 s in
      let wanted = merged d first.1 mvolt in
      let set = i2c_set_u8 bus d.device d.reg wanted first.2 in
      let again = i2c_read_out bus d.device d.reg 0 set.1 in
      elim ((read_out-WasRead d.device d.reg 0 s).result) [
        | inl a ↦ let zero_rc = rw a at ok in absurd (ground (arith, a, zero_rc))
        | inr (a, value) ↦ elim (Bool-cases (truthy set.0)) [
          | inl b ↦ let zero_rc = rw (a, b) at ok in absurd (ground (arith, b, zero_rc))
          | inr b ↦ elim (Bool-cases (truthy again.0)) [
            | inl c ↦ let zero_rc = rw (a, b, c) at ok in absurd (ground (arith, c, zero_rc))
            | inr c ↦ elim (Bool-cases (not (again.1 == wanted))) [
              | inl e ↦ let zero_rc = rw (a, b, c, e) at ok in absurd (ground (arith, zero_rc))
              | inr e ↦
                  rw (a, b, c, e)
                    (ap (λ (f : ℕ → ℕ → ℕ). f d.device d.reg)
                        (read_out-WasRead d.device d.reg 0 set.1).registers
                      ∙ set_u8-register d.device d.reg wanted first.2 b
                      ∙ ap (λ (v : ℕ). merged d v mvolt) value)
            ]
          ]
        ]
      ]
