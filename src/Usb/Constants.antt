-- ===== src/Usb/Constants.antt =====
-- Limits and task states of src/mcu/max3421e/max3421e_usb.h, and the requests, descriptor and
-- transfer types of src/mcu/ch9.h.
use microbridge.Base.{ℕ}

abbrev pub xfer_timeout : ℕ
xfer_timeout = 5000

abbrev pub nak_limit : ℕ
nak_limit = 32_000

abbrev pub retry_limit : ℕ
retry_limit = 3

abbrev pub settle_delay : ℕ
settle_delay = 200

abbrev pub num_devices : ℕ
num_devices = 2

abbrev pub state_mask : ℕ
state_mask = 0xf0

abbrev pub state_detached : ℕ
state_detached = 0x10

abbrev pub detached_initialize : ℕ
detached_initialize = 0x11

abbrev pub detached_wait_for_device : ℕ
detached_wait_for_device = 0x12

abbrev pub detached_illegal : ℕ
detached_illegal = 0x13

abbrev pub attached_settle : ℕ
attached_settle = 0x20

abbrev pub attached_reset_device : ℕ
attached_reset_device = 0x30

abbrev pub attached_wait_reset_complete : ℕ
attached_wait_reset_complete = 0x40

abbrev pub attached_wait_sof : ℕ
attached_wait_sof = 0x50

abbrev pub attached_get_descriptor_size : ℕ
attached_get_descriptor_size = 0x60

abbrev pub state_addressing : ℕ
state_addressing = 0x70

abbrev pub state_configuring : ℕ
state_configuring = 0x80

abbrev pub state_running : ℕ
state_running = 0x90

abbrev pub state_error : ℕ
state_error = 0xa0

abbrev pub req_get_descr : ℕ
req_get_descr = 0x80

abbrev pub req_set : ℕ
req_set = 0x00

abbrev pub request_set_address : ℕ
request_set_address = 5

abbrev pub request_get_descriptor : ℕ
request_get_descriptor = 6

abbrev pub request_set_configuration : ℕ
request_set_configuration = 9

abbrev pub descriptor_device : ℕ
descriptor_device = 0x01

abbrev pub descriptor_configuration : ℕ
descriptor_configuration = 0x02

abbrev pub descriptor_string : ℕ
descriptor_string = 0x03

abbrev pub descriptor_interface : ℕ
descriptor_interface = 0x04

abbrev pub descriptor_endpoint : ℕ
descriptor_endpoint = 0x05

abbrev pub transfer_type_bulk : ℕ
transfer_type_bulk = 0x02
