-- ===== src/Mac/Load/Store.antt =====
-- What the buffer of the map holds after the words have come.
use rep_vgg_acc.Base.{
  and_false, ℕ, suc, ◌+◌, ◌*◌, ◌/◌, ◌%◌, ◌^◌, ◌<◌, Bool, true, false, ◌&&◌, List, [], ◌∷◌, ◌==◌,
  ◌≡◌, ◌≢◌, refl, ◌∙◌, ap, if◌then◌else◌, Bool-cases, inl, inr, ◌⊎◌, arith,
}
use mathlib.Core.Path.{subst}
use rep_vgg_acc.Mac.Load.{
  ImapIn, ImapBiu, imap_edge, imap_waddr, imap_wdata, imap_wen, PathIn, ImapPath, buf_in, path_edge,
  path_edges,
}
use rep_vgg_acc.Mac.Load.Write.{buf_edge-write}

-- Where the pair of words `2 * h` and `2 * h + 1` goes.
abbrev pub place : ℕ → ℕ
place h = h / 8 + (h % 4 * 2 + h / 4 % 2) * 3136

pub pair : (ℕ → ℕ) → ℕ → ℕ
pair words h = words (2 * h) * 2 ^ 32 + words (2 * h + 1)

pub place-lt : (h : ℕ) → h < 25088 → place h < 25088
place-lt h l = omega arith

place_injective : (h i : ℕ) → h < 25088 → i < 25088 → place h ≡ place i → h ≡ i
place_injective h i a b e = omega arith

-- After the first `k` words.
pub record Holds (words : ℕ → ℕ) (k : ℕ) (s : ImapPath) : Type 0 where
  pub receive_cnt : s.biu.receive_cnt ≡ k % 50176
  pub former_bits : (h : ℕ) → k ≡ 2 * h + 1 → s.biu.former_bits ≡ words (2 * h)
  pub stored :
      (h : ℕ) → 2 * h + 1 < k → s.buf.mem_r (place h / 2 ^ 12 % 8) (place h % 2 ^ 12) ≡ pair words h

imap_waddr-place : (h : ℕ) (s : ImapBiu) → s.receive_cnt ≡ 2 * h + 1 → imap_waddr s ≡ place h
unfolding imap_waddr
imap_waddr-place h s e = omega arith

-- An edge with no word.
path_edge-quiet :
    (words : ℕ → ℕ) (k : ℕ) (u : PathIn) (s : ImapPath)
    → u.ren ≡ false
    → u.biu.rsp_vld ≡ false
    → Holds words k s
    → Holds words k (path_edge u s)
unfolding path_edge imap_edge imap_wen
path_edge-quiet words k u s read idle h = record {
  receive_cnt = rw (idle, and_false) h.receive_cnt;
  former_bits = λ j e. rw (idle, and_false) (h.former_bits j e);
  stored = λ j l.
      buf_edge-write (buf_in u s) s.buf (place j / 2 ^ 12 % 8) (place j % 2 ^ 12) read
      ∙ rw (idle, and_false) (h.stored j l);
}

-- What the write of the pair `m` leaves at the place of the pair `j`.
at_place : ℕ → ℕ → Bool
at_place j m = place j / 2 ^ 12 % 8 == place m / 2 ^ 12 % 8 && place j % 2 ^ 12 == place m % 2 ^ 12

at_place_self : (j : ℕ) → at_place j j ≡ true
unfolding at_place
at_place_self j = ground arith

at_place_other : (j m : ℕ) → j < 25088 → m < 25088 → j ≢ m → at_place j m ≡ false
unfolding at_place
at_place_other j m a b other =
    let apart : place j ≢ place m = λ e. other (place_injective j m a b e) in
    ground (arith, place-lt j a, place-lt m b, apart)

stored-word :
    (words : ℕ → ℕ) (m j : ℕ) (u : PathIn) (s : ImapPath)
    → m < 25088
    → u.biu.rsp_data ≡ words (2 * m + 1)
    → Holds words (2 * m + 1) s
    → 2 * j + 1 < 2 * m + 2
    → (if at_place j m
        then imap_wdata u.biu s.biu
        else s.buf.mem_r (place j / 2 ^ 12 % 8) (place j % 2 ^ 12))
      ≡ pair words j
unfolding imap_wdata pair
stored-word words m j u s fits word h l = elim (Bool-cases (j == m)) [
  | inl test ↦
      let same : j ≡ m = ground (arith, test) in
      rw (same, at_place_self m, h.former_bits m refl, word) refl
  | inr test ↦
      let other : j ≢ m = ground (arith, test) in
      rw (at_place_other j m (omega arith) fits other) (h.stored j (omega arith))
]

imap_wen-odd :
    (u : ImapIn) (s : ImapBiu)
    → (s.receive_cnt % 2 == 1) ≡ true
    → u.rsp_vld ≡ true
    → imap_wen u s ≡ true
unfolding imap_wen
imap_wen-odd u s odd comes = rw (odd, comes) refl

imap_wen-even : (u : ImapIn) (s : ImapBiu) → (s.receive_cnt % 2 == 1) ≡ false → imap_wen u s ≡ false
unfolding imap_wen
imap_wen-even u s even = rw even refl

stored-path_edge :
    (words : ℕ → ℕ) (k j : ℕ) (u : PathIn) (s : ImapPath)
    → k < 50176
    → u.biu.rsp_vld ≡ true
    → u.biu.rsp_data ≡ words k
    → Holds words k s
    → 2 * j + 1 < suc k
    → (if imap_wen u.biu s.biu
          && (place j / 2 ^ 12 % 8 == imap_waddr s.biu / 2 ^ 12 % 8)
          && (place j % 2 ^ 12 == imap_waddr s.biu % 2 ^ 12)
        then imap_wdata u.biu s.biu
        else s.buf.mem_r (place j / 2 ^ 12 % 8) (place j % 2 ^ 12))
      ≡ pair words j
unfolding at_place
stored-path_edge words k j u s fits comes word h l =
    elim (Bool-cases (s.biu.receive_cnt % 2 == 1)) [
      | inl odd ↦
          let m : ℕ = k / 2 in
          let at : k ≡ 2 * m + 1 = ground (arith, odd, h.receive_cnt) in
          rw
            (
              imap_wen-odd u.biu s.biu odd comes,
              imap_waddr-place m s.biu (omega (arith, h.receive_cnt)),
            )
            (stored-word words m j u s (omega arith) (word ∙ ap words at)
              (subst (λ x. Holds words x s) at h) (omega arith))
      | inr even ↦
          let below : 2 * j + 1 < k = ground (arith, even, h.receive_cnt) in
          rw (imap_wen-even u.biu s.biu even) (h.stored j below)
    ]

-- An edge with the next word.
path_edge-word :
    (words : ℕ → ℕ) (k : ℕ) (u : PathIn) (s : ImapPath)
    → k < 50176
    → u.ren ≡ false
    → u.biu.rsp_vld ≡ true
    → u.biu.rsp_data ≡ words k
    → Holds words k s
    → Holds words (suc k) (path_edge u s)
unfolding path_edge imap_edge
path_edge-word words k u s fits read comes word h = record {
  receive_cnt = let cnt = h.receive_cnt in ground arith;
  former_bits = λ j e.
      let even : (s.biu.receive_cnt % 2 == 0) ≡ true = ground (arith, h.receive_cnt) in
      rw (even, comes, word) (ap words (omega arith));
  stored = λ j l.
      buf_edge-write (buf_in u s) s.buf (place j / 2 ^ 12 % 8) (place j % 2 ^ 12) read
      ∙ stored-path_edge words k j u s fits comes word h l;
}

-- The words from number `k` on come in these edges, at any of them, and all come; nothing is read.
abbrev pub Comes : (ℕ → ℕ) → ℕ → List PathIn → Type 0
Comes words k [] = k ≡ 50176
Comes words k (u ∷ us) =
    (u.ren ≡ false)
    × ((u.biu.rsp_vld ≡ false) × Comes words k us
        ⊎ (u.biu.rsp_vld ≡ true)
          × (u.biu.rsp_data ≡ words k)
          × (k < 50176)
          × Comes words (suc k) us)

pub path_edges-Holds :
    (words : ℕ → ℕ) (us : List PathIn) (k : ℕ) (s : ImapPath)
    → Comes words k us
    → Holds words k s
    → Holds words 50176 (path_edges us s)
unfolding path_edges
path_edges-Holds words [] k s e h = subst (λ x. Holds words x s) e h
path_edges-Holds words (u ∷ us) k s (quiet, inl (idle, rest)) h =
    path_edges-Holds words us k (path_edge u s) rest (path_edge-quiet words k u s quiet idle h)
path_edges-Holds words (u ∷ us) k s (quiet, inr (comes, word, fits, rest)) h =
    path_edges-Holds words us (suc k) (path_edge u s) rest
      (path_edge-word words k u s fits quiet comes word h)

pub start-Holds : (words : ℕ → ℕ) (s : ImapPath) → s.biu.receive_cnt ≡ 0 → Holds words 0 s
start-Holds words s e = record {
  receive_cnt = e;
  former_bits = λ h e. absurd (omega arith);
  stored = λ h l. absurd (omega arith);
}
