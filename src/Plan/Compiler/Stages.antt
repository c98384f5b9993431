-- ===== src/Plan/Compiler/Stages.antt =====
-- src/specflow/plan/compiler.py: the loop over the queue, for any graph whose reverse edges are right.
use specflow_agent.Prelude.{
  ℕ, zero, suc, ◌+◌, ◌-◌, ◌≤◌, ◌≡◌, refl, String, true, false, some, List, [], ◌∷◌, ◌++◌, ◌==◌,
  nat_eq, string_eq, contains, length, count_if, count_if-append, ltb, leb, not, ◌&&◌,
  if◌then◌else◌, arith, All,
}
use specflow_agent.Prelude.Multiset.{times, contains-times, absent-times, times-length}
use specflow_agent.Plan.Compiler.{assign, Frontier, relax, relax_stage, levels}

-- The frontier after one successor.
abbrev pub relaxed : Frontier → String → Frontier
relaxed f s = record {
  degree = assign f.degree s (f.degree s - 1);
  queue = if f.degree s == 1 then f.queue ++ s ∷ [] else f.queue;
}

-- What a pass over successors does to the degree and to the queue.
relax-degree :
    (f : Frontier) (ss : List String) (x : String) → (relax f ss).degree x ≡ f.degree x - times x ss
unfolding relax times
relax-degree f [] x = omega arith
relax-degree f (s ∷ ss) x =
    ground (arith, string_eq.beq_iff s x, string_eq.beq_iff x s, relax-degree (relaxed f s) ss x)

relaxed-queue :
    (f : Frontier) (s x : String)
    → times x (relaxed f s).queue ≡ times x f.queue + (if x == s && f.degree s == 1 then 1 else 0)
unfolding times
relaxed-queue f s x = ground (arith, count_if-append (λ y. x == y) f.queue (s ∷ []))

relax-queue :
    (f : Frontier) (ss : List String) (x : String)
    → times x (relax f ss).queue
      ≡ times x f.queue + (if ltb 0 (f.degree x) && leb (f.degree x) (times x ss) then 1 else 0)
unfolding relax times
relax-queue f [] x = ground arith
relax-queue f (s ∷ ss) x = ground (
  arith,
  string_eq.beq_iff s x,
  string_eq.beq_iff x s,
  relaxed-queue f s x,
  relax-queue (relaxed f s) ss x,
)

-- The dependencies that are not processed yet.
abbrev pub remaining : List String → List String → ℕ
remaining done ds = count_if (λ d. not (contains done d)) ds

remaining-cons :
    (n : String) (done ds : List String)
    → contains done n ≡ false
    → remaining done ds ≡ remaining (n ∷ done) ds + times n ds
unfolding times
remaining-cons n done [] h = refl
remaining-cons n done (d ∷ ds) h =
    ground (arith, remaining-cons n done ds, string_eq.beq_iff d n, string_eq.beq_iff n d, h)

-- A stage joins the processed nodes.
abbrev pub pushed : List String → List String → List String
pushed done [] = done
pushed done (n ∷ ns) = pushed (n ∷ done) ns

pub times-pushed :
    (x : String) (done ns : List String) → times x (pushed done ns) ≡ times x done + times x ns
unfolding times
times-pushed x done [] = omega arith
times-pushed x done (n ∷ ns) = ground (arith, times-pushed x (n ∷ done) ns)

pub length-pushed : (done ns : List String) → length (pushed done ns) ≡ length done + length ns
length-pushed done [] = omega arith
length-pushed done (n ∷ ns) = omega (arith, length-pushed (n ∷ done) ns)

-- A graph on distinct ids without parallel edges, whose reverse edges are right.
pub record IsGraph (ids : List String) (deps rev : String → List String) : Type 0 where
  pub once : (x : String) → times x ids ≡ (if contains ids x then 1 else 0)
  pub edges : (x n : String) → times x (rev n) ≡ times n (deps x)
  pub simple : (x n : String) → times n (deps x) ≤ 1
  pub known :
      (x n : String)
      → contains (deps x) n ≡ true
      → (contains ids x ≡ true) × (contains ids n ≡ true)

-- With some nodes processed and some of a stage to go: a degree counts the dependencies that remain,
-- and the nodes that reached zero are processed, to go or in the queue, once each.
pub record Fronts (ids : List String) (deps : String → List String) (done : List String)
    (f : Frontier) (todo : List String) : Type 0 where
  pub degrees : (x : String) → f.degree x ≡ remaining done (deps x)
  pub members :
      (x : String)
      → times x done + times x todo + times x f.queue
        ≡ (if contains ids x && f.degree x == 0 then 1 else 0)

module _ (ids : List String) (deps rev : String → List String) (g : IsGraph ids deps rev) where
  fresh :
      (done : List String) (f : Frontier) (n : String) (todo : List String)
      → Fronts ids deps done f (n ∷ todo)
      → contains done n ≡ false
  unfolding times
  fresh done f n todo i = ground (arith, i.members n, contains-times n done, string_eq.beq_iff n n)

  moved :
      (x n : String) (done todo : List String)
      → times x (n ∷ done) + times x todo ≡ times x done + times x (n ∷ todo)
  unfolding times
  moved x n done todo = ground arith

  relax-Fronts :
      (done : List String) (f : Frontier) (n : String) (todo : List String)
      → Fronts ids deps done f (n ∷ todo)
      → Fronts ids deps (n ∷ done) (relax f (rev n)) todo
  relax-Fronts done f n todo i = record {
    degrees = λ x. omega (
      arith,
      relax-degree f (rev n) x,
      g.edges x n,
      i.degrees x,
      remaining-cons n done (deps x) (fresh done f n todo i),
    );
    members = λ x. ground (
      arith,
      moved x n done todo,
      relax-queue f (rev n) x,
      relax-degree f (rev n) x,
      g.edges x n,
      i.members x,
      absent-times n (deps x),
      g.known x n,
    );
  }

  stage-Fronts :
      (done : List String) (f : Frontier) (todo : List String)
      → Fronts ids deps done f todo
      → Fronts ids deps (pushed done todo) (relax_stage rev f todo) []
  unfolding relax_stage
  stage-Fronts done f [] i = i
  stage-Fronts done f (n ∷ todo) i =
      stage-Fronts (n ∷ done) (relax f (rev n)) todo (relax-Fronts done f n todo i)

  -- The queue becomes the next stage.
  next-Fronts :
      (done : List String) (f : Frontier)
      → Fronts ids deps done f []
      → Fronts ids deps done (record { degree = f.degree; queue = [] }) f.queue
  unfolding times
  next-Fronts done f i = record { degrees = i.degrees; members = λ x. omega (arith, i.members x) }

  none_remains :
      (done ds : List String) → remaining done ds ≡ 0 → All (λ d. contains done d ≡ true) ds
  none_remains done [] h = tt
  none_remains done (d ∷ ds) h = (ground arith, none_remains done ds (ground arith))

-- Every member of a stage has all its dependencies in earlier stages.
abbrev pub Layered : (String → List String) → List String → List (List String) → Type 0
Layered deps done [] = Unit
Layered deps done (s ∷ ss) =
    All (λ x. All (λ d. contains done d ≡ true) (deps x)) s × Layered deps (pushed done s) ss

abbrev pub all_pushed : List String → List (List String) → List String
all_pushed done [] = done
all_pushed done (s ∷ ss) = all_pushed (pushed done s) ss

module _ (ids : List String) (deps rev : String → List String) (g : IsGraph ids deps rev) where
  All-times :
      (P : String → Type 0) (q : List String) → ((x : String) → 1 ≤ times x q → P x) → All P q
  unfolding times
  All-times P [] h = tt
  All-times P (x ∷ q) h = (
    h x (ground (arith, string_eq.beq_iff x x)),
    All-times P q (λ y more. h y (ground (arith, more))),
  )

  ready :
      (done : List String) (degree : String → ℕ) (q : List String)
      → Fronts ids deps done (record { degree = degree; queue = [] }) q
      → All (λ x. All (λ d. contains done d ≡ true) (deps x)) q
  ready done degree q i =
      All-times (λ x. All (λ d. contains done d ≡ true) (deps x)) q
        (λ x more.
          none_remains ids deps rev g done (deps x)
            (ground (arith, i.members x, i.degrees x, more)))

  fits :
      (done : List String) (degree : String → ℕ) (q : List String)
      → Fronts ids deps done (record { degree = degree; queue = [] }) q
      → length done + length q ≤ length ids
  fits done degree q i = omega (
    arith,
    length-pushed done q,
    times-length (pushed done q) ids
        (λ x. ground (arith, times-pushed x done q, i.members x, g.once x)),
  )

  -- With fuel for the ids that are not processed, the loop ends. Its stages respect the dependencies,
  -- and what it has processed are the ids that have no dependency outside of it, once each.
  pub levels-Layered :
      (fuel : ℕ) (done : List String) (degree : String → ℕ) (q : List String)
      → Fronts ids deps done (record { degree = degree; queue = [] }) q
      → suc (length ids) ≤ fuel + length done
      → (ss : List (List String)) × (levels fuel rev degree q ≡ some ss)
        × Layered deps done ss
        × ((x : String)
            → times x (all_pushed done ss)
              ≡ (if contains ids x && remaining (all_pushed done ss) (deps x) == 0 then 1 else 0))
  unfolding levels times
  levels-Layered fuel done degree [] i enough =
      ([], refl, tt, λ x. ground (arith, i.members x, i.degrees x))
  levels-Layered zero done degree (a ∷ q) i enough =
      absurd (omega (arith, fits done degree (a ∷ q) i))
  levels-Layered (suc fuel) done degree (a ∷ q) i enough =
      let f = relax_stage rev (record { degree = degree; queue = [] }) (a ∷ q) in
      let i' =
        next-Fronts ids deps rev g (pushed done (a ∷ q)) f
          (stage-Fronts ids deps rev g done (record { degree = degree; queue = [] }) (a ∷ q) i) in
      let (ss, e, layered, total) =
        levels-Layered fuel (pushed done (a ∷ q)) f.degree f.queue i'
          (omega (arith, length-pushed done (a ∷ q))) in
      ((a ∷ q) ∷ ss, rw e refl, (ready done degree (a ∷ q) i, layered), total)
