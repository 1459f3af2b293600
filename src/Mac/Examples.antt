-- ===== src/Mac/Examples.antt =====
-- The array with all weights 12 and a map of twelves, and the other units at concrete inputs.
use rep_vgg_acc.Base.{
  List, ◌++◌, length, ℕ, zero, suc, ◌+◌, ◌*◌, ◌/◌, ◌%◌, ◌^◌, ◌≡◌, refl, ap, Bool, true, false, [],
  ◌∷◌, replicate, ltb, if◌then◌else◌, inr, arith,
}
use rep_vgg_acc.Base.Int.{pos, negsuc, ◌+ℤ◌, ◌*ℤ◌, signed8}
use rep_vgg_acc.Base.Loop.{sum_range}
use rep_vgg_acc.App.Check.{quantise, relu}
use rep_vgg_acc.Mac.{pe_reset}
use rep_vgg_acc.Mac.Spec.{conv}
use rep_vgg_acc.Mac.Array.{array_reset}
use rep_vgg_acc.Mac.Core.{core_reset}
use rep_vgg_acc.Mac.Control.{control_at, imap_raddr, mac_array2psum_acc_info}
use rep_vgg_acc.Mac.Control.Run.{armed}
use rep_vgg_acc.Mac.Control.Read.{imap_raddr-lags}
use rep_vgg_acc.Mac.Unit.{MacIn, MacArray, PsumData, mac_at, psum_data}
use rep_vgg_acc.Mac.Unit.Conv.{Loaded, now, map_in, mac_at-conv}
use rep_vgg_acc.Mac.Unit.Hold.{weights-mac_at}
use rep_vgg_acc.Mac.Merge.{map_merger, map_merger-quantise}
use rep_vgg_acc.Mac.Accumulate.{AccIn, PsumAcc}
use rep_vgg_acc.Mac.Load.{PathIn, ImapPath, imap_reset, imap_rdata, path_edge, path_edges}
use rep_vgg_acc.Mac.Load.Store.{pair, Comes}
use rep_vgg_acc.Mac.Load.Read.{imap_rdata-path_edges}
use rep_vgg_acc.Mac.Output.{OutputIn, Output, output_edges, taken, written}
use rep_vgg_acc.Mac.Output.Order.{numbered, pending, merge, written-taken}
use rep_vgg_acc.Mac.Arbiter.{idle, ArbIn, grants, command, answers}
use rep_vgg_acc.Mac.Arbiter.Grant.{grants-weight}
use rep_vgg_acc.Mac.Weights.{WeightIn, weight_reset, requests}
use rep_vgg_acc.Mac.Weights.Request.{addresses, Steady, requests-addresses}

-- The pixel of each channel is its number plus the time, as a byte.
abbrev input : ℕ → MacIn
input t = record {
  conv_start = false;
  rdy = true;
  weight_waddr = 0;
  weight_wdata = 0;
  weight_wen = false;
  imap_rdata = λ ch. (ch + t) % 256;
}

abbrev unit : MacArray
unit = record {
  core = record core_reset {
    conv_array = λ i. record array_reset { pes = λ e. record pe_reset { weights = λ k. 12 } };
  };
  control = armed;
  weight_load_sel_base = 0;
}

unit-Loaded : Loaded input unit 1 3 55 (λ ch k. 12) (λ ch. 12)
unit-Loaded = record {
  kernel = λ ch e _ _. ap (λ f. f 1) (weights-mac_at input unit (λ t. refl) (now 1 3 55) ch e);
  kernel_1x1 = λ ch _. ap (λ f. f 1) (weights-mac_at input unit (λ t. refl) (now 1 3 55) ch 9);
  small = λ ch k. omega arith;
  small_1x1 = λ ch. omega arith;
  bytes = λ t ch. omega arith;
}

mac_at-conv_example :
    let end = mac_at input unit (now 1 3 55 + 6) in
    (end.control.vld_d6 ≡ true)
    × (mac_array2psum_acc_info end.control % 2 ^ 13 ≡ 1 % 2 * 2 ^ 12 + (56 * 3 + 55))
    × ((psum_data end).psum_3x3 ≡ sum_range 32 0 (λ ch. conv (map_in input 1 ch) (λ k. 12) 3 55))
    × ((psum_data end).psum_1x1
        ≡ sum_range 32 0 (λ ch. signed8 (map_in input 1 ch (56 * 3 + 55)) *ℤ signed8 12))
    × ((psum_data end).identity
        ≡ map_in input 1
            ((if ltb (56 * 3 + 55) 3133 then 1 / 2 else (1 + 1) / 2) % 32)
            (56 * 3 + 55))
mac_at-conv_example =
    mac_at-conv input unit refl (λ k. refl) 1 3 55 (omega arith) (omega arith) (omega arith)
      (λ ch k. 12) (λ ch. 12) unit-Loaded

imap_raddr-lags_example :
    imap_raddr (control_at (λ t. (false, true)) armed (3136 * 1 + 58))
    ≡ (if ltb 58 59 then 0 % 2 else 1 % 2) * 2 ^ 12 + 58
imap_raddr-lags_example =
    imap_raddr-lags (λ t. (false, true)) (λ k. refl) 1 58 (omega arith) (omega arith) (omega arith)

abbrev sums : PsumData
sums = record { identity = 0xf4; psum_1x1 = negsuc 20000; psum_3x3 = pos 9000000 }

map_merger-quantise_example :
    map_merger sums
    ≡ quantise (relu (negsuc 20000 +ℤ pos 9000000 +ℤ signed8 0xf4)) 17 * 2 ^ 16
      + quantise (pos 9000000) 17 * 2 ^ 8
      + quantise (negsuc 20000) 14
map_merger-quantise_example = map_merger-quantise sums (omega arith) (omega arith) (omega arith)

abbrev access : ℕ → PsumData → AccIn
access info d = record { info = info; data_in = d; vld = true; o_rdy = true }

abbrev other_sums : PsumData
other_sums = record { identity = 7; psum_1x1 = pos 5; psum_3x3 = negsuc 9 }

abbrev empty : PsumAcc
empty = record {
  mem_r = λ a. other_sums;
  addr_r = 0;
  data_d = other_sums;
  identity_sel_d = false;
  psum_acc_vld_out = false;
  stage_vld = false;
  stage_dat = other_sums;
}

abbrev request : Bool → WeightIn
request start = record {
  weight_start = start;
  rdy = true;
  rsp_vld = false;
  weight3_base_addr = 0x4003_1000;
  weight1_base_addr = 0x4004_0000;
  weight_och_cnt = 5;
}

request-Steady : (n : ℕ) → Steady 0x4003_1000 0x4004_0000 5 (replicate n (request false))
request-Steady zero = tt
request-Steady (suc n) =
    (refl, record { kernels = refl; kernels_1x1 = refl; channel = refl }, request-Steady n)

requests-addresses_example :
    requests (request true ∷ replicate 160 (request false)) weight_reset
    ≡ addresses 0x4003_1000 0x4004_0000 5 0 160
requests-addresses_example =
    requests-addresses 0x4003_1000 0x4004_0000 5 (request true) (replicate 160 (request false))
      weight_reset (record { state = refl; cnt = refl; vld = refl }) refl
      (record { kernels = refl; kernels_1x1 = refl; channel = refl }) (request-Steady 160)
      (omega arith)

-- A word comes at each edge, and the map is all sevens.
abbrev word_edge : PathIn
word_edge = record {
  biu = record { imap_start = false; rdy = true; rsp_vld = true; rsp_data = 7; imap_base_addr = 0 };
  raddr = 0;
  ren = false;
}

sevens-Comes : (n k : ℕ) → k + n ≡ 50176 → Comes (λ k. 7) k (replicate n word_edge)
sevens-Comes zero k e = omega arith
sevens-Comes (suc n) k e =
    (refl, inr (refl, refl, omega arith, sevens-Comes n (suc k) (omega arith)))

abbrev empty_path : ImapPath
empty_path = record {
  biu = imap_reset;
  buf = record { mem_r = λ i a. 0; addr_r = λ i. 0; sram_cs_d = λ i. false };
}

abbrev read_edge : PathIn
read_edge = record {
  biu = record {
    imap_start = false;
    rdy = true;
    rsp_vld = false;
    rsp_data = 0;
    imap_base_addr = 0;
  };
  raddr = 4096 + 3135;
  ren = true;
}

imap_rdata-path_edges_example :
    imap_rdata (path_edge read_edge (path_edges (replicate 50176 word_edge) empty_path)).buf
    ≡ pair (λ k. 7) (8 * 3135 + 4 * 1)
      ∷ pair (λ k. 7) (8 * 3135 + 4 * 1 + 1)
      ∷ pair (λ k. 7) (8 * 3135 + 4 * 1 + 2)
      ∷ pair (λ k. 7) (8 * 3135 + 4 * 1 + 3)
      ∷ []
imap_rdata-path_edges_example =
    imap_rdata-path_edges (λ k. 7) (replicate 50176 word_edge) empty_path read_edge 3135 1 refl
      (sevens-Comes 50176 0 refl) (omega arith) (omega arith) refl refl refl

-- Sums come at two edges, and the arbiter is ready from the second on.
abbrev output_inputs : List OutputIn
output_inputs =
    record {
      vld = true;
      data_in = record { identity = 12; psum_1x1 = pos 40000; psum_3x3 = pos 700000 };
      in_ch_cnt = true;
      omap_base_addr = 4096;
      rdy = false;
      rsp_vld = false;
    }
    ∷ record {
      vld = true;
      data_in = record { identity = 12; psum_1x1 = pos 9000; psum_3x3 = negsuc 5 };
      in_ch_cnt = true;
      omap_base_addr = 4096;
      rdy = true;
      rsp_vld = false;
    }
    ∷ record {
      vld = false;
      data_in = record { identity = 0; psum_1x1 = pos 0; psum_3x3 = pos 0 };
      in_ch_cnt = true;
      omap_base_addr = 4096;
      rdy = true;
      rsp_vld = true;
    }
    ∷ []

abbrev empty_output : Output
empty_output = record {
  merged = record { vld = false; dat = 0 };
  queued = record { vld = false; dat = 0 };
  omap_biu2arb_cnt = 200703;
  receive_cnt = 0;
  req = false;
}

written-taken_example :
    written output_inputs empty_output
      ++ numbered 4096
          (200703 + length (written output_inputs empty_output))
          (pending (output_edges output_inputs empty_output) [])
    ≡ numbered 4096 200703 (pending empty_output (merge (taken output_inputs empty_output)))
written-taken_example =
    written-taken 4096 output_inputs 200703 empty_output (refl, (refl, (refl, tt))) refl

-- All three units ask, but that of the output map, and the bus answers 5.
abbrev asking : ArbIn
asking = record {
  omap_biu = record { req = false; vld = true; addr = 1 };
  weight_biu = record { req = true; vld = true; addr = 2 };
  imap_biu = record { req = true; vld = true; addr = 3 };
  omap_biu2arb_data = 4;
  rsp_valid = true;
  rsp_rdata = 5;
}

grants-weight_example :
    let s = grants (asking ∷ asking ∷ []) idle in
    ((command asking s).cmd_valid ≡ asking.weight_biu.vld)
    × ((command asking s).cmd_addr ≡ asking.weight_biu.addr)
    × ((command asking s).cmd_read ≡ true)
    × ((answers asking s).arb2weight_biu_vld ≡ asking.rsp_valid)
    × ((answers asking s).arb2weight_biu_data ≡ (if asking.rsp_valid then asking.rsp_rdata else 0))
    × ((answers asking s).arb2imap_biu_vld ≡ false)
    × ((answers asking s).arb2omap_biu_vld ≡ false)
grants-weight_example = grants-weight asking (asking ∷ []) asking refl refl (refl, tt)
