-- ===== src/App/Check.antt =====
-- `check_result`: the 3x3, 1x1 and identity branches of a RepVGG block for output channel 0, their
-- sum, ReLU and quantisation.
pub mod Spec
pub mod Conv
pub mod Range
pub mod Outcome
pub mod Block
pub mod Weights
use rep_vgg_acc.Base.{
  ℕ, zero, suc, ◌+◌, ◌-◌, ◌*◌, ◌/◌, ◌%◌, ◌^◌, Bool, ◌||◌, u32, bit_and, ◌==◌, if◌then◌else◌, ◌>>>◌,
}
use rep_vgg_acc.Base.Int.{ℤ, pos, negsuc, ◌+ℤ◌, ◌*ℤ◌, ltb_ℤ, signed8}
use rep_vgg_acc.Base.Loop.{for_range}
use rep_vgg_acc.Machine.{update}
use rep_vgg_acc.App.{
  sram_base, imap_offset, w3_offset, w1_offset, omap_offset, map_size, in_ch, out_ch,
}

abbrev pub Memory : Type 0
Memory = ℕ → ℕ

-- The global arrays `w3[och][ich][tap]` and `w1[och][ich]` of bytes.
abbrev pub W3 : Type 0
W3 = ℕ → ℕ → ℕ → ℕ

abbrev pub W1 : Type 0
W1 = ℕ → ℕ → ℕ

-- `(data >> (8*n)) & 0xff`
pub byte_of : ℕ → ℕ → ℕ
byte_of word n = bit_and (word >>> (8 * n)) 0xff

pub set_w3 : W3 → ℕ → ℕ → ℕ → ℕ → W3
set_w3 w m c i v m' c' i' =
    if m' == m
    then if c' == c then if i' == i then v else w m' c' i' else w m' c' i'
    else w m' c' i'

pub set_w1 : W1 → ℕ → ℕ → ℕ → W1
set_w1 w m c v m' c' = if m' == m then if c' == c then v else w m' c' else w m' c'

-- The arrays during the loads, with the local `offset`.
pub record Load (A : Type 0) : Type 0 where
  pub offset : ℕ
  pub array : A

pub load_w3 : Memory → W3 → W3
load_w3 mem w =
    let end : Load W3 =
      for_range out_ch 0
        (λ m. for_range 9 0 λ i. for_range (in_ch / 4) 0 λ p s.
          let word = mem (sram_base + (w3_offset + s.offset)) in
          record {
            offset = u32 (s.offset + 4);
            array = for_range 4 0 (λ q a. set_w3 a m (p * 4 + q) i (byte_of word q)) s.array;
          })
        (record { offset = 0; array = w }) in
    end.array

pub load_w1 : Memory → W1 → W1
load_w1 mem w =
    let end : Load W1 =
      for_range out_ch 0
        (λ m. for_range (in_ch / 4) 0 λ p s.
          let word = mem (sram_base + (w1_offset + s.offset)) in
          record {
            offset = u32 (s.offset + 4);
            array = for_range 4 0 (λ q a. set_w1 a m (p * 4 + q) (byte_of word q)) s.array;
          })
        (record { offset = 0; array = w }) in
    end.array

-- Four channels of the pixel with the linear index `x`.
pub imap_word : Memory → ℕ → ℕ → ℕ
imap_word mem x ich = mem (sram_base + (imap_offset + (x * (in_ch / 4) + ich) * 4))

-- The test for padding, with MAP_SIZE + 1 for the rows and MAP_SIZE for the columns.
pub is_padding : ℕ → ℕ → Bool
is_padding r c = r == 0 || r == map_size + 1 || c == 0 || c == map_size

-- One of the nine taps; `i+k-1` and `j+m-1` are used only where they are not negative.
pub add_tap : Memory → W3 → ℕ → ℕ → ℕ → ℕ → ℕ → ℤ → ℤ
unfolding is_padding
add_tap mem w3 och i j k m psum =
    if is_padding (i + k) (j + m)
    then psum +ℤ pos 0
    else for_range (in_ch / 4) 0
        (λ ich. for_range 4 0 λ n a.
          let imap =
            signed8 (byte_of (imap_word mem ((i + k - 1) * map_size + (j + m - 1)) ich) n) in
          a +ℤ imap *ℤ signed8 (w3 och (ich * 4 + n) (k * 3 + m)))
        psum

pub psum3x3 : Memory → W3 → ℕ → ℕ → ℕ → ℤ
psum3x3 mem w3 och i j =
    for_range 3 0 (λ k. for_range 3 0 (λ m. add_tap mem w3 och i j k m)) (pos 0)

-- The 1x1 branch; the same loop picks the input pixel of channel `och` as the identity branch.
pub record Branches : Type 0 where
  pub psum1x1 : ℤ
  pub identity : ℤ

pub branches : Memory → W1 → ℕ → ℕ → ℕ → ℤ → Branches
branches mem w1 och i j garbage =
    for_range (in_ch / 4) 0
      (λ ich. for_range 4 0 λ n s.
        let imap = signed8 (byte_of (imap_word mem (i * map_size + j) ich) n) in
        record {
          psum1x1 = s.psum1x1 +ℤ imap *ℤ signed8 (w1 och (ich * 4 + n));
          identity = if ich * 4 + n == och then imap else s.identity;
        })
      (record { psum1x1 = pos 0; identity = garbage })

abbrev pub relu : ℤ → ℤ
relu a = if ltb_ℤ a (pos 0) then pos 0 else a

-- `(a >> k) & 0xff`, where `>>` on a negative number rounds down.
unfoldable pub quantise : ℤ → ℕ → ℕ
quantise (pos n) k = n / 2 ^ k % 256
quantise (negsuc n) k = 255 - n / 2 ^ k % 256

pub record Pixel : Type 0 where
  pub quan3x3 : ℕ
  pub quan1x1 : ℕ
  pub quan_map_sum : ℕ

-- What is computed for one output pixel.
pub check_pixel : Memory → W3 → W1 → ℕ → ℕ → ℕ → ℤ → Pixel
check_pixel mem w3 w1 och i j garbage =
    let p3 = psum3x3 mem w3 och i j in
    let b = branches mem w1 och i j garbage in
    let map_sum = relu (b.psum1x1 +ℤ p3 +ℤ b.identity) in
    record {
      quan3x3 = quantise p3 17;
      quan1x1 = quantise b.psum1x1 14;
      quan_map_sum = quantise map_sum 17;
    }

-- The store of one output pixel: `acc_res` is never assigned, and the comparison is commented out,
-- so the pixel that was computed is not used.
pub store_pixel : ℕ → ℕ → ℕ → ℕ → Memory → Memory
store_pixel acc_res och i j mem =
    update mem (sram_base + (omap_offset + (map_size * map_size * och + i * map_size + j) * 4))
      acc_res

-- The returned value, the SRAM and the two global arrays afterwards.
pub record Checked : Type 0 where
  pub errors : ℕ
  pub memory : Memory
  pub w3 : W3
  pub w1 : W1

pub check_result : ℕ → Memory → W3 → W1 → Checked
check_result acc_res mem w3 w1 = record {
  errors = 0;
  memory =
      for_range 1 0
        (λ och. for_range map_size 0 (λ i. for_range map_size 0 (λ j. store_pixel acc_res och i j)))
        mem;
  w3 = load_w3 mem w3;
  w1 = load_w1 mem w1;
}
