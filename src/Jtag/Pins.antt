-- ===== src/Jtag/Pins.antt =====
-- src/jtag_gpio.c: the pins, one clock (`tick`, `tick_payload_bit`), and the hijack switch.
-- The chain on the connector is not part of the program: `Chain` is a parameter.
use mega65_expansion_board_i.Base.{
  ℕ, zero, suc, Bool, true, false, ◌&&◌, List, [], ◌∷◌, ◌≡◌, if◌then◌else◌,
}
use mega65_expansion_board_i.Jtag.Tap.{View, step}

-- Output latches, directions (`true` is GPIO_OUT) and the hijack line.
pub record Pins : Type 0 where
  pub tck : Bool
  pub tms : Bool
  pub tdi : Bool
  pub tck_out : Bool
  pub tms_out : Bool
  pub tdi_out : Bool
  pub tdo_out : Bool
  pub hijack : Bool

-- What is wired to the port: its state, its reaction to a rising edge of TCK, and the level it
-- then drives on TDO.
pub record Chain : Type 1 where
  pub Device : Type 0
  pub rise : Pins → Device → Device
  pub tdo : Device → Bool

-- The switch passes the port's signals on while the port drives them and claims the bus.
abbrev pub connected : Pins → Bool
connected p = p.hijack && (p.tck_out && (p.tms_out && p.tdi_out))

-- The documented behaviour of a single-device chain: while it is connected, it follows IEEE 1149.1.
pub record Conforms (c : Chain) : Type 0 where
  pub view : c.Device → View
  pub view-rise :
      (p : Pins) (d : c.Device) → connected p ≡ true → view (c.rise p d) ≡ step p.tms p.tdi (view d)

pub record Bus (D : Type 0) : Type 0 where
  pub pins : Pins
  pub chip : D

-- The GPIO calls, in program order. `sleep_us` changes no pin and is kept as a mark.
pub data GpioOp : Type 0 where
  put_tck put_tms put_tdi put_hijack : Bool → GpioOp
  dir_tck dir_tms dir_tdi dir_tdo : Bool → GpioOp
  sleep_us : ℕ → GpioOp

unfoldable pub gpio : GpioOp → Pins → Pins
gpio (put_tck b) p = record p { tck = b }
gpio (put_tms b) p = record p { tms = b }
gpio (put_tdi b) p = record p { tdi = b }
gpio (put_hijack b) p = record p { hijack = b }
gpio (dir_tck b) p = record p { tck_out = b }
gpio (dir_tms b) p = record p { tms_out = b }
gpio (dir_tdi b) p = record p { tdi_out = b }
gpio (dir_tdo b) p = record p { tdo_out = b }
gpio (sleep_us n) p = p

unfoldable pub gpio_all : List GpioOp → Pins → Pins
unfolding gpio
gpio_all [] p = p
gpio_all (o ∷ os) p = gpio_all os (gpio o p)

-- `jtag_gpio_init`, after `gpio_init` of each pin: inputs with no pulls, hijack inactive
abbrev pub init_ops : List GpioOp
init_ops = dir_tck false ∷ dir_tms false ∷ dir_tdi false ∷ dir_tdo false ∷ put_hijack false ∷ []

-- `jtag_hijack_claim`, with M65_JTAG_HIJACK_ACTIVE_HIGH
abbrev pub claim_ops : List GpioOp
claim_ops =
    dir_tck false
    ∷ dir_tms false
    ∷ dir_tdi false
    ∷ put_hijack true
    ∷ sleep_us 10
    ∷ put_tck false
    ∷ put_tms true
    ∷ put_tdi false
    ∷ dir_tck true
    ∷ dir_tms true
    ∷ dir_tdi true
    ∷ dir_tdo false
    ∷ []

-- `jtag_hijack_release`
abbrev pub release_ops : List GpioOp
release_ops =
    put_tck false
    ∷ dir_tck false
    ∷ dir_tms false
    ∷ dir_tdi false
    ∷ sleep_us 10
    ∷ put_hijack false
    ∷ []

module _ {D : Type 0} where
  unfoldable pub jtag_gpio_init : Bus D → Bus D
  unfolding gpio_all
  jtag_gpio_init b = record b { pins = gpio_all init_ops b.pins }

  unfoldable pub jtag_hijack_claim : Bus D → Bus D
  unfolding gpio_all
  jtag_hijack_claim b = record b { pins = gpio_all claim_ops b.pins }

  unfoldable pub jtag_hijack_release : Bus D → Bus D
  unfolding gpio_all
  jtag_hijack_release b = record b { pins = gpio_all release_ops b.pins }

module _ (c : Chain) where
  -- TCK rises with TMS and TDI set up, TDO is sampled while it is high, and it falls again.
  unfoldable pub tick : Bool → Bool → Bus c.Device → Bool × Bus c.Device
  tick tms tdi b =
      let high = record b.pins { tms = tms; tdi = tdi; tck = true } in
      let d = c.rise high b.chip in
      (c.tdo d, record { pins = record high { tck = false }; chip = d })

  -- TMS is left as it is, but for the last bit.
  unfoldable pub tick_payload_bit : Bool → Bool → Bus c.Device → Bus c.Device
  tick_payload_bit tdi last b =
      let high = record b.pins {
        tdi = tdi;
        tms = (if last then true else b.pins.tms);
        tck = true;
      } in
      record { pins = record high { tck = false }; chip = c.rise high b.chip }

  unfoldable pub idle_clocks : ℕ → Bus c.Device → Bus c.Device
  unfolding tick
  idle_clocks zero b = b
  idle_clocks (suc n) b = idle_clocks n (tick false false b).1
