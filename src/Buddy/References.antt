-- ===== src/Buddy/References.antt =====
-- Reference counts of pages, `_count`, with several processors that take and drop references in any
-- order: `get_page` and `put_page_testzero`.
use hlos.Base.{
  ℕ, zero, suc, ◌+◌, ◌-◌, ◌^◌, ◌<◌, ◌≡◌, refl, ap, List, [], ◌∷◌, ◌++◌, arith, ◌==◌, leb, false,
  if◌then◌else◌,
}
use hlos.Base.Int.{pos}
use hlos.Buddy.{Memory, init_page_count, page_count, get_page, put_page_testzero}

-- `held` counts the references of each processor, `last_puts` the calls of `put_page_testzero` that
-- were true.
pub record Sharing : Type 0 where
  pub mem : Memory
  pub held : List ℕ
  pub last_puts : ℕ

abbrev pub sum : List ℕ → ℕ
sum [] = 0
sum (k ∷ ks) = k + sum ks

sum-append : (xs ys : List ℕ) → sum (xs ++ ys) ≡ sum xs + sum ys
sum-append [] ys = omega arith
sum-append (x ∷ xs) ys = omega (arith, sum-append xs ys)

-- One step of one processor, which holds a reference: it takes another one, drops one, or hands one
-- over to another processor.
pub data Turn (page : ℕ) (s : Sharing) : Sharing → Type 0 where
  take_one :
      (xs : List ℕ) (k : ℕ) (ys : List ℕ)
      → s.held ≡ xs ++ suc k ∷ ys
      → sum s.held < 2 ^ 31 - 1
      → Turn page s (record s { mem = get_page s.mem page; held = xs ++ suc (suc k) ∷ ys })
  drop_one :
      (xs : List ℕ) (k : ℕ) (ys : List ℕ)
      → s.held ≡ xs ++ suc k ∷ ys
      → Turn page s (record {
        mem = (put_page_testzero s.mem page).0;
        held = xs ++ k ∷ ys;
        last_puts = if (put_page_testzero s.mem page).1 then suc s.last_puts else s.last_puts;
      })
  hand_over : (held : List ℕ) → sum held ≡ sum s.held → Turn page s (record s { held = held })

pub data Turns (page : ℕ) (s : Sharing) : Sharing → Type 0 where
  start : Turns page s s
  later : {t u : Sharing} → Turns page s t → Turn page t u → Turns page s u

-- The pattern of the count is the number of references, and `put_page_testzero` was true once if there are none
-- left, and never before.
pub record IsCounted (page : ℕ) (s : Sharing) : Type 0 where
  pub pattern : s.mem.count page ≡ sum s.held
  pub small : sum s.held < 2 ^ 31
  pub last_put : s.last_puts ≡ (if sum s.held == 0 then 1 else 0)

module _ (page : ℕ) where
  Turn-IsCounted : {s t : Sharing} → Turn page s t → IsCounted page s → IsCounted page t
  unfolding get_page put_page_testzero
  Turn-IsCounted {s} (take_one xs k ys e few) c =
      let before = sum-append xs (suc k ∷ ys) in
      let after = sum-append xs (suc (suc k) ∷ ys) in
      let total = ap sum e in
      record {
        pattern = ground (arith, c.pattern, before, after, total);
        small = omega (arith, before, after, total);
        last_put = ground (arith, c.last_put, before, after, total);
      }
  Turn-IsCounted {s} (drop_one xs k ys e) c =
      let before = sum-append xs (suc k ∷ ys) in
      let after = sum-append xs (k ∷ ys) in
      let total = ap sum e in
      record {
        pattern = ground (arith, c.pattern, before, after, total);
        small = omega (arith, before, after, total, c.small);
        last_put = ground (arith, c.pattern, c.small, c.last_put, before, after, total);
      }
  Turn-IsCounted {s} (hand_over held e) c = record {
    pattern = omega (arith, c.pattern, e);
    small = omega (arith, c.small, e);
    last_put = rw e c.last_put;
  }

  Turns-IsCounted : {s t : Sharing} → Turns page s t → IsCounted page s → IsCounted page t
  Turns-IsCounted start c = c
  Turns-IsCounted (later before turn) c = Turn-IsCounted turn (Turns-IsCounted before c)

  holder :
      (ks : List ℕ) (n : ℕ)
      → sum ks ≡ suc n
      → (xs : List ℕ) × (k : ℕ) × (ys : List ℕ) × (ks ≡ xs ++ suc k ∷ ys)
  holder [] n e = absurd (omega (arith, e))
  holder (zero ∷ ks) n e =
      let h = holder ks n (omega (arith, e)) in (0 ∷ h.0, h.1, h.2, ap (λ t. 0 ∷ t) h.3)
  holder (suc k ∷ ks) n e = ([], k, ks, refl)

  -- A way from `s` to a state without references.
  pub record IsDrained (s : Sharing) : Type 0 where
    pub last : Sharing
    pub steps : Turns page s last
    pub none_left : sum last.held ≡ 0
    pub once : last.last_puts ≡ 1

  Turns-append : {s t u : Sharing} → Turns page s t → Turns page t u → Turns page s u
  Turns-append before start = before
  Turns-append before (later after turn) = later (Turns-append before after) turn

  drain : (n : ℕ) (s : Sharing) → sum s.held ≡ n → IsCounted page s → IsDrained s
  drain zero s e c = record {
    last = s;
    steps = start;
    none_left = e;
    once = ground (arith, c.last_put, e);
  }
  drain (suc n) s e c =
      let h = holder s.held n e in
      let turn = drop_one h.0 h.1 h.2 h.3 in
      let rest =
        drain n _
          (omega (arith, e, ap sum h.3, sum-append h.0 (h.1 ∷ h.2), sum-append h.0 (suc h.1 ∷ h.2)))
          (Turn-IsCounted turn c) in
      record {
        last = rest.last;
        steps = Turns-append (later start turn) rest.steps;
        none_left = rest.none_left;
        once = rest.once;
      }

  page_count-eq : (s : Sharing) → IsCounted page s → page_count s.mem page ≡ pos (sum s.held)
  unfolding page_count
  page_count-eq s c =
      let small : leb (2 ^ 31) (s.mem.count page) ≡ false = ground (arith, c.pattern, c.small) in
      rw small (ap pos c.pattern)

  -- From `init_page_count` with one holder on, whatever references the holders then take, drop
  -- and hand over, in whatever order, with fewer than 2^31 of them at a time: `page_count` is the
  -- number of references, `put_page_testzero` has been true once if none are left and never
  -- before, and there is a way to go on that drops all of them, with `put_page_testzero` true
  -- once.
  pub Turns-IsDrained :
      (m : Memory) (held : List ℕ) (s : Sharing)
      → sum held ≡ 1
      → Turns page (record { mem = init_page_count m page; held = held; last_puts = 0 }) s
      → (page_count s.mem page ≡ pos (sum s.held)) × IsCounted page s × IsDrained s
  unfolding init_page_count page_count
  Turns-IsDrained m held s e turns =
      let c =
        Turns-IsCounted turns (record {
          pattern = ground (arith, e);
          small = omega (arith, e);
          last_put = rw e refl;
        }) in
      (page_count-eq s c, c, drain (sum s.held) s refl c)
