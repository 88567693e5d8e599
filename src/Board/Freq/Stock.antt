-- ===== src/Board/Freq/Stock.antt =====
-- The clocks of the stock configuration.
use horizon_oc.Prelude.{
  ◌==◌, if◌then◌else◌, get_elem?, take, All, ℕ, zero, suc, ◌-◌, ◌≡◌, refl, ◌∙◌, Bool, true, false,
  some, List, [], ◌∷◌, arith,
}
use mathlib.Core.Option.{some-injective}
use mathlib.Core.Path.{subst}
use horizon_oc.Board.Types.{Module, cpu, gpu, mem, module_rank}
use horizon_oc.Board.Freq.{
  PcvModule, cpu_bus, gpu_core, emc, pcv_module, ApmConfiguration, apm_configurations, FreqServices,
  FreqCall, board_set_hz, set_hz_in, set_twice, clkrst_set_clock_rate, pcv_set_clock_rate,
  get_module_id, clkrst_open_session, clkrst_close_session, sleep_ns, find_configuration,
  current_configuration, board_reset_to_stock,
}
use horizon_oc.Board.Freq.Sessions.{pcv_eq, rate_set, open_sessions}

-- What the log has become after a clock was set.
pub record HasSet (m : Module) (hz : ℕ) (log after : List FreqCall) : Type 0 where
  pub set_to : rate_set after (pcv_module m) ≡ some hz
  pub others : (n : PcvModule) → pcv_eq (pcv_module m) n ≡ false → rate_set after n ≡ rate_set log n
  pub closed : (n : PcvModule) → open_sessions after n ≡ open_sessions log n

-- No call of a service fails.
abbrev pub Answers : FreqServices → Type 0
Answers v = (log : List FreqCall) (c : FreqCall) → v.answer log c ≡ 0

abbrev after_set : Bool → Module → ℕ → List FreqCall → List FreqCall
after_set true m hz log =
    let c = clkrst_set_clock_rate (pcv_module m) hz in
    let opened = clkrst_open_session (pcv_module m) ∷ get_module_id (pcv_module m) ∷ log in
    clkrst_close_session (pcv_module m)
    ∷ (if module_rank m == 0 then c ∷ sleep_ns 250000 ∷ c ∷ opened else c ∷ opened)
after_set false m hz log =
    let c = pcv_set_clock_rate (pcv_module m) hz in
    if module_rank m == 0 then c ∷ sleep_ns 250000 ∷ c ∷ log else c ∷ log

-- The modules with a clock of their own.
pub data Clocked : Module → Type 0 where
  cpu_clocked : Clocked cpu
  gpu_clocked : Clocked gpu
  mem_clocked : Clocked mem

module _ (v : FreqServices) (ok : Answers v) (hz : ℕ) (log : List FreqCall) where
  set_hz_in-after :
      (on : Bool) (m : Module)
      → v.has_clkrst ≡ on
      → Clocked m
      → set_hz_in v m hz log ≡ some (after_set on m hz log)
  unfolding set_hz_in set_twice
  set_hz_in-after true _ has cpu_clocked = rw (has, ok, ok, ok, ok) refl
  set_hz_in-after true _ has gpu_clocked = rw (has, ok, ok, ok) refl
  set_hz_in-after true _ has mem_clocked = rw (has, ok, ok, ok) refl
  set_hz_in-after false _ has cpu_clocked = rw (has, ok, ok) refl
  set_hz_in-after false _ has gpu_clocked = rw (has, ok) refl
  set_hz_in-after false _ has mem_clocked = rw (has, ok) refl

open_close :
    (same : Bool) (n : ℕ)
    → (let opened = if same then suc n else n in if same then opened - 1 else opened) ≡ n
open_close true n = omega arith
open_close false n = refl

after_set-HasSet :
    (on : Bool) (m : Module) (hz : ℕ) (log : List FreqCall)
    → Clocked m
    → HasSet m hz log (after_set on m hz log)
after_set-HasSet true _ hz log cpu_clocked = record {
  set_to = refl;
  others = λ n ne. rw ne refl;
  closed = λ n. open_close (pcv_eq (pcv_module cpu) n) (open_sessions log n);
}
after_set-HasSet true _ hz log gpu_clocked = record {
  set_to = refl;
  others = λ n ne. rw ne refl;
  closed = λ n. open_close (pcv_eq (pcv_module gpu) n) (open_sessions log n);
}
after_set-HasSet true _ hz log mem_clocked = record {
  set_to = refl;
  others = λ n ne. rw ne refl;
  closed = λ n. open_close (pcv_eq (pcv_module mem) n) (open_sessions log n);
}
after_set-HasSet false _ hz log cpu_clocked = record {
  set_to = refl;
  others = λ n ne. rw ne refl;
  closed = λ n. refl;
}
after_set-HasSet false _ hz log gpu_clocked = record {
  set_to = refl;
  others = λ n ne. rw ne refl;
  closed = λ n. refl;
}
after_set-HasSet false _ hz log mem_clocked = record {
  set_to = refl;
  others = λ n ne. rw ne refl;
  closed = λ n. refl;
}

pub board_set_hz-HasSet :
    (v : FreqServices) (m : Module) (hz : ℕ) (log : List FreqCall)
    → Answers v
    → Clocked m
    → (after : List FreqCall) × (board_set_hz v m hz log ≡ some after) × HasSet m hz log after
unfolding board_set_hz
board_set_hz-HasSet v _ hz log ok cpu_clocked = (
  after_set v.has_clkrst cpu hz log,
  set_hz_in-after v ok hz log v.has_clkrst cpu refl cpu_clocked,
  after_set-HasSet v.has_clkrst cpu hz log cpu_clocked,
)
board_set_hz-HasSet v _ hz log ok gpu_clocked = (
  after_set v.has_clkrst gpu hz log,
  set_hz_in-after v ok hz log v.has_clkrst gpu refl gpu_clocked,
  after_set-HasSet v.has_clkrst gpu hz log gpu_clocked,
)
board_set_hz-HasSet v _ hz log ok mem_clocked = (
  after_set v.has_clkrst mem hz log,
  set_hz_in-after v ok hz log v.has_clkrst mem refl mem_clocked,
  after_set-HasSet v.has_clkrst mem hz log mem_clocked,
)

-- The configurations of the table, without the one that ends it.
abbrev pub known : List ApmConfiguration
known = take 16 apm_configurations

known-found : All (λ c. find_configuration c.id apm_configurations ≡ some c) known
unfolding find_configuration
known-found = (
  refl,
  (
    refl,
    (
      refl,
      (
        refl,
        (
          refl,
          (
            refl,
            (refl, (refl, (refl, (refl, (refl, (refl, (refl, (refl, (refl, (refl, tt)))))))))),
          ),
        ),
      ),
    ),
  ),
)

at-All {ℓ} :
    {A : Type ℓ} (P : A → Type ℓ) (xs : List A) (i : ℕ) (x : A)
    → All P xs
    → get_elem? xs i ≡ some x
    → P x
at-All P [] i x all e = grind arith
at-All P (y ∷ ys) zero x all e = subst P (some-injective y x e) all.0
at-All P (y ∷ ys) (suc i) x all e = at-All P ys i x all.1 e

-- On HOS 9.0.0 or later, when the services answer and the configuration is one of the table,
-- ResetToStock gives the CPU, the GPU and the memory its clocks, and leaves no session open that
-- was not.
pub board_reset_to_stock-clocks :
    (v : FreqServices) (log : List FreqCall) (i : ℕ) (c : ApmConfiguration)
    → Answers v
    → v.at_least_9 ≡ true
    → get_elem? known i ≡ some c
    → v.performance_configuration log ≡ (0, c.id)
    → (after : List FreqCall) × (board_reset_to_stock v log ≡ some after)
      × (rate_set after cpu_bus ≡ some c.cpu_hz)
      × (rate_set after gpu_core ≡ some c.gpu_hz)
      × (rate_set after emc ≡ some c.mem_hz)
      × ((n : PcvModule) → open_sessions after n ≡ open_sessions log n)
unfolding board_reset_to_stock current_configuration
board_reset_to_stock-clocks v log i c ok new in_table current =
    let found : find_configuration c.id apm_configurations ≡ some c =
      at-All (λ x. find_configuration x.id apm_configurations ≡ some x) known i c known-found
        in_table in
    let (l1, e1, s1) = board_set_hz-HasSet v cpu c.cpu_hz log ok cpu_clocked in
    let (l2, e2, s2) = board_set_hz-HasSet v gpu c.gpu_hz l1 ok gpu_clocked in
    let (l3, e3, s3) = board_set_hz-HasSet v mem c.mem_hz l2 ok mem_clocked in
    (
      l3,
      simp (new, current, found, e1, e2, e3),
      s3.others cpu_bus refl ∙ s2.others cpu_bus refl ∙ s1.set_to,
      s3.others gpu_core refl ∙ s2.set_to,
      s3.set_to,
      λ n. s3.closed n ∙ s2.closed n ∙ s1.closed n,
    )
