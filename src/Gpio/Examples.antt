-- ===== src/Gpio/Examples.antt =====
-- The properties of the GPIO driver at GPIOA_BASE and concrete masks.
use rep_vgg_acc.Base.{ℕ, ◌+◌, ◌≡◌, ◌≢◌, some, arith}
use rep_vgg_acc.Machine.{Returns, ram}
use rep_vgg_acc.Gpio.{offset, inten, inttype0, inttype1, gpio_enable_interrupt, gpio_int_fall}
use rep_vgg_acc.Gpio.Interrupt.{gpio_enable_interrupt-Selected, Selected, falling_bit, edge_bit}

-- Every register holds 0x35.
abbrev registers : ℕ → ℕ
registers a = 0x35

abbrev port : ℕ
port = 0x1001_2000

gpio_enable_interrupt-Selected_example :
    Returns (gpio_enable_interrupt ram (some port) 0x10 gpio_int_fall registers) λ r m'.
      (r ≡ 0)
      × Selected 0x10 4 (port + offset inten) registers m' 1
      × Selected 0x10 4 (port + offset inttype0) registers m' (falling_bit gpio_int_fall)
      × Selected 0x10 4 (port + offset inttype1) registers m' (edge_bit gpio_int_fall)
      × ((a : ℕ)
          → a ≢ port + offset inten
          → a ≢ port + offset inttype0
          → a ≢ port + offset inttype1
          → m' a ≡ registers a)
gpio_enable_interrupt-Selected_example =
    gpio_enable_interrupt-Selected port 0x10 4 gpio_int_fall registers (omega arith) (omega arith)
