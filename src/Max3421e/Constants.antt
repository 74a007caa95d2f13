-- ===== src/Max3421e/Constants.antt =====
-- Registers (src/mcu/max3421e/max3421e.h) and bits (src/mcu/max3421e/max3421e_constants.h) of the
-- MAX3421E in host mode.
use microbridge.Base.{ℕ}

abbrev pub reg_rcvfifo : ℕ
reg_rcvfifo = 0x08

abbrev pub reg_sndfifo : ℕ
reg_sndfifo = 0x10

abbrev pub reg_sudfifo : ℕ
reg_sudfifo = 0x20

abbrev pub reg_rcvbc : ℕ
reg_rcvbc = 0x30

abbrev pub reg_sndbc : ℕ
reg_sndbc = 0x38

abbrev pub reg_usbirq : ℕ
reg_usbirq = 0x68

abbrev pub reg_usbctl : ℕ
reg_usbctl = 0x78

abbrev pub reg_cpuctl : ℕ
reg_cpuctl = 0x80

abbrev pub reg_pinctl : ℕ
reg_pinctl = 0x88

abbrev pub reg_gpinirq : ℕ
reg_gpinirq = 0xb0

abbrev pub reg_hirq : ℕ
reg_hirq = 0xc8

abbrev pub reg_hien : ℕ
reg_hien = 0xd0

abbrev pub reg_mode : ℕ
reg_mode = 0xd8

abbrev pub reg_peraddr : ℕ
reg_peraddr = 0xe0

abbrev pub reg_hctl : ℕ
reg_hctl = 0xe8

abbrev pub reg_hxfr : ℕ
reg_hxfr = 0xf0

abbrev pub reg_hrsl : ℕ
reg_hrsl = 0xf8

abbrev pub se0 : ℕ
se0 = 0

abbrev pub se1 : ℕ
se1 = 1

abbrev pub fs_host : ℕ
fs_host = 2

abbrev pub ls_host : ℕ
ls_host = 3

abbrev pub bm_oscokirq : ℕ
bm_oscokirq = 0x01

abbrev pub bm_chipres : ℕ
bm_chipres = 0x20

abbrev pub bm_rcvdavirq : ℕ
bm_rcvdavirq = 0x04

abbrev pub bm_condetirq : ℕ
bm_condetirq = 0x20

abbrev pub bm_frameirq : ℕ
bm_frameirq = 0x40

abbrev pub bm_hxfrdnirq : ℕ
bm_hxfrdnirq = 0x80

abbrev pub bm_lowspeed : ℕ
bm_lowspeed = 0x02

abbrev pub bm_sofkaenab : ℕ
bm_sofkaenab = 0x08

abbrev pub bm_busrst : ℕ
bm_busrst = 0x01

abbrev pub bm_samplebus : ℕ
bm_samplebus = 0x04

abbrev pub bm_rcvtog0 : ℕ
bm_rcvtog0 = 0x10

abbrev pub bm_rcvtog1 : ℕ
bm_rcvtog1 = 0x20

abbrev pub bm_sndtog0 : ℕ
bm_sndtog0 = 0x40

abbrev pub bm_sndtog1 : ℕ
bm_sndtog1 = 0x80

abbrev pub tok_setup : ℕ
tok_setup = 0x10

abbrev pub tok_in : ℕ
tok_in = 0x00

abbrev pub tok_out : ℕ
tok_out = 0x20

abbrev pub tok_inhs : ℕ
tok_inhs = 0x80

abbrev pub tok_ouths : ℕ
tok_ouths = 0xa0

abbrev pub bm_rcvtogrd : ℕ
bm_rcvtogrd = 0x10

abbrev pub bm_sndtogrd : ℕ
bm_sndtogrd = 0x20

abbrev pub bm_kstatus : ℕ
bm_kstatus = 0x40

abbrev pub bm_jstatus : ℕ
bm_jstatus = 0x80

abbrev pub bm_se0 : ℕ
bm_se0 = 0x00

abbrev pub bm_se1 : ℕ
bm_se1 = 0xc0

abbrev pub hr_busy : ℕ
hr_busy = 0x01

abbrev pub hr_nak : ℕ
hr_nak = 0x04

abbrev pub hr_timeout : ℕ
hr_timeout = 0x0e

abbrev pub mode_fs_host : ℕ
mode_fs_host = 0xc9

abbrev pub mode_ls_host : ℕ
mode_ls_host = 0xcb
