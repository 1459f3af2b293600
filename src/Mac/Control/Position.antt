-- ===== src/Mac/Control/Position.antt =====
-- Where the state machine is on the map, while nothing stalls it.
use rep_vgg_acc.Base.{
  ℕ, suc, ◌+◌, ◌-◌, ◌*◌, ◌/◌, ◌%◌, ◌<◌, ◌≡◌, refl, ap, ◌∙◌, Bool, true, false, ◌&&◌, ltb, ◌==◌,
  if◌then◌else◌, arith,
}
use rep_vgg_acc.Mac.Control.{
  State, conv_s0, conv_s1, conv_s2, conv_s3, conv_s4, conv_s5, conv_s6, conv_s7, conv_s8, Control,
  is_idle, is_setup, is_cool_down, next_state, count, control_edge,
}

-- The state at the pixel in row `r` and column `c`.
abbrev pub of_column : State → State → State → ℕ → State
of_column first middle last c = if c == 0 then first else if c == 55 then last else middle

unfoldable pub region : ℕ → ℕ → State
region r c =
    if r == 0
    then of_column conv_s0 conv_s1 conv_s2 c
    else if r == 55
    then of_column conv_s6 conv_s7 conv_s8 c
    else of_column conv_s3 conv_s4 conv_s5 c

-- The number of pixels from the first one of pass 0.
abbrev pub pixels : ℕ → ℕ → ℕ → ℕ
pixels p r c = 3136 * p + 56 * r + c

-- In pass `p`, which works on output channel p / 2 and group p % 2 of the input channels. The results come
-- out six edges later, and the pixels are read 59 edges earlier.
pub record At (p r c : ℕ) (f : Control) : Type 0 where
  pub state : f.state ≡ region r c
  pub column : f.conv_col_cnt ≡ c
  pub row : f.conv_row_cnt ≡ r
  pub in_ch : f.in_ch_cnt ≡ p % 2
  pub out_ch : f.out_ch_cnt ≡ p / 2
  pub imap : f.imap_cnt ≡ (pixels p r c + 59) % 3136
  pub omap : f.omap_cnt ≡ (pixels p r c - 6) % 3136
  pub omap_ch : f.omap_ch_cnt ≡ (pixels p r c - 6) / 3136
  pub vld1 : f.vld_d1 ≡ ltb 0 (pixels p r c)
  pub vld2 : f.vld_d2 ≡ ltb 1 (pixels p r c)
  pub vld3 : f.vld_d3 ≡ ltb 2 (pixels p r c)
  pub vld4 : f.vld_d4 ≡ ltb 3 (pixels p r c)
  pub vld5 : f.vld_d5 ≡ ltb 4 (pixels p r c)
  pub vld6 : f.vld_d6 ≡ ltb 5 (pixels p r c)

pub active :
    (r c : ℕ)
    → (is_idle (region r c) ≡ false)
      × (is_setup (region r c) ≡ false)
      × (is_cool_down (region r c) ≡ false)
unfolding region
active r c = ground arith

next_in_row :
    (s : Bool) (f : Control) (r c : ℕ)
    → f.conv_col_cnt ≡ c
    → f.conv_row_cnt ≡ r
    → r < 56
    → c < 55
    → next_state s true f (region r c) ≡ region r (c + 1)
unfolding next_state region
next_in_row s f r c col row hr hc = ground arith

next_row_end :
    (s : Bool) (f : Control) (r : ℕ)
    → f.conv_col_cnt ≡ 55
    → f.conv_row_cnt ≡ r
    → r < 55
    → next_state s true f (region r 55) ≡ region (r + 1) 0
unfolding next_state region
next_row_end s f r col row hr = ground arith

next_map_end :
    (s : Bool) (f : Control) (p : ℕ)
    → f.conv_col_cnt ≡ 55
    → f.conv_row_cnt ≡ 55
    → f.in_ch_cnt ≡ p % 2
    → f.out_ch_cnt ≡ p / 2
    → p < 127
    → next_state s true f (region 55 55) ≡ region 0 0
unfolding next_state region
next_map_end s f p col row ich och hp = ground arith

-- What an edge without a stall does in a state of the convolution.
pub record Moved (s : Bool) (f g : Control) : Type 0 where
  pub state : g.state ≡ next_state s true f f.state
  pub column : g.conv_col_cnt ≡ count 6 55 f.conv_col_cnt
  pub row :
      g.conv_row_cnt ≡ (if f.conv_col_cnt == 55 then count 6 55 f.conv_row_cnt else f.conv_row_cnt)
  pub in_ch : g.in_ch_cnt ≡ (
      if f.conv_row_cnt == 55 && f.conv_col_cnt == 55 then (f.in_ch_cnt + 1) % 2 else f.in_ch_cnt)
  pub out_ch : g.out_ch_cnt ≡ (
      if f.in_ch_cnt == 1 && (f.conv_row_cnt == 55 && f.conv_col_cnt == 55)
      then count 8 63 f.out_ch_cnt
      else f.out_ch_cnt)
  pub imap : g.imap_cnt ≡ count 12 3135 f.imap_cnt
  pub omap : g.omap_cnt ≡ (if f.vld_d6 then count 12 3135 f.omap_cnt else f.omap_cnt)
  pub omap_ch :
      g.omap_ch_cnt
      ≡ (if f.vld_d6 && f.omap_cnt == 3135 then count 7 127 f.omap_ch_cnt else f.omap_ch_cnt)
  pub vld1 : g.vld_d1 ≡ true
  pub vld2 : g.vld_d2 ≡ f.vld_d1
  pub vld3 : g.vld_d3 ≡ f.vld_d2
  pub vld4 : g.vld_d4 ≡ f.vld_d3
  pub vld5 : g.vld_d5 ≡ f.vld_d4
  pub vld6 : g.vld_d6 ≡ f.vld_d5

and_true : (b : Bool) → (b && true) ≡ b
and_true true = refl
and_true false = refl

moves :
    (s : Bool) (f : Control)
    → is_idle f.state ≡ false
    → is_setup f.state ≡ false
    → is_cool_down f.state ≡ false
    → Moved s f (control_edge s true f)
unfolding control_edge
moves s f e1 e2 e3 = record {
  state = rw e1 refl;
  column = rw (e1, e2, e3) refl;
  row = rw (e1, e2, e3, and_true) refl;
  in_ch = rw (e1, e2, e3, and_true) refl;
  out_ch = rw (e1, e2, e3, and_true) refl;
  imap = rw (e1, e3) refl;
  omap = rw and_true refl;
  omap_ch = rw and_true refl;
  vld1 = rw (e1, e2, e3) refl;
  vld2 = rw e1 refl;
  vld3 = rw e1 refl;
  vld4 = rw e1 refl;
  vld5 = rw e1 refl;
  vld6 = rw e1 refl;
}

at_moves : (s : Bool) (p r c : ℕ) (f : Control) → At p r c f → Moved s f (control_edge s true f)
at_moves s p r c f h =
    let (e1, e2, e3) = active r c in moves s f (rw h.state e1) (rw h.state e2) (rw h.state e3)

-- From a position to the next one.
module _ (s : Bool) (p r c q i j : ℕ) (f : Control) (h : At p r c f) (hr : r < 56) (hc : c < 56)
    (hp : p < 128) (hq : q < 128) (after : pixels q i j ≡ pixels p r c + 1) where
  imap_next : count 12 3135 f.imap_cnt ≡ (pixels q i j + 59) % 3136
  imap_next = ground (arith, h.imap, after)

  omap_next :
      (if f.vld_d6 then count 12 3135 f.omap_cnt else f.omap_cnt) ≡ (pixels q i j - 6) % 3136
  omap_next = rw (h.vld6, h.omap) (ground (arith, after))

  omap_ch_next :
      (if f.vld_d6 && f.omap_cnt == 3135 then count 7 127 f.omap_ch_cnt else f.omap_ch_cnt)
      ≡ (pixels q i j - 6) / 3136
  omap_ch_next = rw (h.vld6, h.omap, h.omap_ch) (ground (arith, after))

  later : (k : ℕ) → ltb k (pixels p r c) ≡ ltb (suc k) (pixels q i j)
  later k = ground (arith, after)

  arrives :
      f.conv_col_cnt ≡ c
      → next_state s true f (region r c) ≡ region i j
      → (if c == 55 then 0 else c + 1) ≡ j
      → (if c == 55 then (if r == 55 then 0 else r + 1) else r) ≡ i
      → (if r == 55 && c == 55 then p + 1 else p) ≡ q
      → At q i j (control_edge s true f)
  arrives col state_next column_next row_next pass_next =
      let m : Moved s f (control_edge s true f) = at_moves s p r c f h in
      record {
        state = m.state ∙ ap (next_state s true f) h.state ∙ state_next;
        column = m.column ∙ rw h.column (ground (arith, column_next));
        row = m.row ∙ rw (h.column, h.row) (ground (arith, row_next));
        in_ch = m.in_ch ∙ rw (h.row, h.column, h.in_ch) (ground (arith, pass_next));
        out_ch = m.out_ch ∙ rw (h.row, h.column, h.in_ch, h.out_ch) (ground (arith, pass_next));
        imap = m.imap ∙ imap_next;
        omap = m.omap ∙ omap_next;
        omap_ch = m.omap_ch ∙ omap_ch_next;
        vld1 = m.vld1 ∙ ground (arith, after);
        vld2 = m.vld2 ∙ h.vld1 ∙ later 0;
        vld3 = m.vld3 ∙ h.vld2 ∙ later 1;
        vld4 = m.vld4 ∙ h.vld3 ∙ later 2;
        vld5 = m.vld5 ∙ h.vld4 ∙ later 3;
        vld6 = m.vld6 ∙ h.vld5 ∙ later 4;
      }

pub next_column :
    (s : Bool) (p r c : ℕ) (f : Control)
    → c < 55
    → r < 56
    → p < 128
    → At p r c f
    → At p r (c + 1) (control_edge s true f)
next_column s p r c f hc hr hp h =
    arrives s p r c p r (c + 1) f h hr (omega arith) hp hp (omega arith) h.column
      (next_in_row s f r c h.column h.row hr hc) (ground arith) (ground arith) (ground arith)

pub next_row :
    (s : Bool) (p r : ℕ) (f : Control)
    → r < 55
    → p < 128
    → At p r 55 f
    → At p (r + 1) 0 (control_edge s true f)
next_row s p r f hr hp h =
    arrives s p r 55 p (r + 1) 0 f h (omega arith) (omega arith) hp hp (omega arith) h.column
      (next_row_end s f r h.column h.row hr) refl (ground arith) (ground arith)

pub next_pass :
    (s : Bool) (p : ℕ) (f : Control)
    → p < 127
    → At p 55 55 f
    → At (p + 1) 0 0 (control_edge s true f)
next_pass s p f hp h =
    arrives s p 55 55 (p + 1) 0 0 f h (omega arith) (omega arith) (omega arith) (omega arith)
      (omega arith) h.column (next_map_end s f p h.column h.row h.in_ch h.out_ch hp) refl refl refl
