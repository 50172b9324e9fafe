-- ===== src/WakerRef/Flying.antt =====
-- A wake of src/futures/task.rs that other calls come between, in every phase of the owner of the
-- pool.
use cosync.Base.{
  ℕ, suc, ◌+◌, ◌≡◌, ◌≢◌, ◌∙◌, true, some, List, [], ◌∷◌, arith, Ptr, has, erase, length,
  length-erase, ap,
}
use cosync.WakerRef.{Counted, finish_wake}
use cosync.WakerRef.Counts.{with_refs-IsCounted}
use cosync.WakerRef.Upgrades.{finish_wake-IsCounted, finish_late-IsCounted}
use cosync.WakerRef.Uses.{Phase, idle, polling, dropped}
use cosync.WakerRef.Seen.{Stands, Borrows}

abbrev pub upgraded : {Fut : Type 0} → Counted Fut → Counted Fut
upgraded c = record c { refs = c.refs + 1 }

module _ {Fut : Type 0} (fl : List Ptr) (w : Ptr → ℕ) (c : Counted Fut) (t : Ptr) where
  pub upgraded-Stands :
      (ph : Phase) → Stands fl w ph c → c.refs ≢ 0 → Stands (t ∷ fl) w ph (upgraded c)
  upgraded-Stands idle ((xs, ys, v), a) n =
      ((xs, ys, with_refs-IsCounted c w xs ys ys v t (c.refs + 1)), omega (arith, a))
  upgraded-Stands (polling q) (k, a) n = (
    record {
      queue = k.queue;
      tasks = k.tasks;
      live = k.live;
      counted = with_refs-IsCounted c w k.queue k.tasks k.live k.counted t (c.refs + 1);
      holds = k.holds;
      unlinked = k.unlinked;
      only = k.only;
    },
    omega (arith, a),
  )
  upgraded-Stands dropped (xs, v, a, z) n = (
    xs,
    with_refs-IsCounted c w xs [] [] v t (c.refs + 1),
    omega (arith, a),
    λ d. absurd (omega (arith, d)),
  )

  module _ (h : has t fl ≡ true) where
    one_less : length fl ≡ suc (length (erase t fl))
    one_less = omega (arith, length-erase t fl h)

    pub finished-Stands :
        (ph : Phase)
        → Stands fl w ph c
        → (c' : Counted Fut) × (finish_wake t c ≡ some c') × Stands (erase t fl) w ph c'
    finished-Stands idle ((xs, ys, v), a) =
        let (c', e, v', b) =
          finish_wake-IsCounted w c t xs ys ys (length (erase t fl)) v (a ∙ ap suc one_less) in
        (c', e, ((_, ys, v'), b))
    finished-Stands (polling q) (k, a) =
        let (c', e, v', b) =
          finish_wake-IsCounted w c t k.queue k.tasks k.live (length (erase t fl)) k.counted
            (a ∙ ap suc one_less) in
        (
          c',
          e,
          (
            record {
              queue = _;
              tasks = k.tasks;
              live = k.live;
              counted = v';
              holds = k.holds;
              unlinked = k.unlinked;
              only = k.only;
            },
            b,
          ),
        )
    finished-Stands dropped (xs, v, a, z) =
        let (c', xs', e, v', b, y) =
          finish_late-IsCounted w c t xs (length (erase t fl)) v (a ∙ one_less) in
        (c', e, (xs', v', b, y))

has-erase_sub : (a b : ℕ) (xs : List ℕ) → has b (erase a xs) ≡ true → has b xs ≡ true
has-erase_sub a b [] h = h
has-erase_sub a b (x ∷ xs) h = ground (arith, has-erase_sub a b xs)

pub finished-Borrows :
    (fl : List Ptr) (w : Ptr → ℕ) (t : Ptr) → Borrows fl w → Borrows (erase t fl) w
finished-Borrows fl w t bs q h = bs q (has-erase_sub t q fl h)
