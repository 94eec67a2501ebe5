-- ===== src/Examples/Data.antt =====
-- A service with two clients that follow the property "temp", a shadow around it, and an SDK.
use java_iotwrap.Common.{
  ℕ, Bool, true, false, [], ◌∷◌, ◌++◌, Option, some, arith, ◌==◌, if◌then◌else◌, Bytes, codes, pos,
  take, length, length-take, ◌-◌, ◌<◌,
}
use java_iotwrap.Service.{Client, Service}
use java_iotwrap.Service.Invariant.{IsValid}
use java_iotwrap.Shadow.{int32, string, default_property, DsAttr, Sdk, Shadow, Alloc}
use java_iotwrap.Shadow.Cloud.{Hal}

abbrev pub temp : Bytes
temp = codes "temp"

abbrev pub label : Bytes
label = codes "label"

abbrev pub reset : Bytes
reset = codes "reset"

-- Client 1 and client 2, with callbacks at 11, 21 and 12, 22.
abbrev object : ℕ → Client
object a =
    if a == 1
    then record { name = codes "one"; command = 11; property = 21 }
    else record { name = codes "two"; command = 12; property = 22 }

abbrev pub demo : Service
demo = record {
  clients = 1 ∷ 2 ∷ [];
  key_follow = (label, some (2 ∷ [])) ∷ (temp, some (1 ∷ 2 ∷ [])) ∷ [];
  cmd_follow = (reset, some (2 ∷ [])) ∷ [];
  objects = object;
  next_client = 3;
  waiting = false;
}

pub demo-IsValid : IsValid demo
demo-IsValid = ground arith

-- Client 1 answers 345 and client 2 answers 12.
abbrev pub replies : ℕ → Bytes → Option Bytes
replies cb key = if cb == 21 then some (codes "345") else some (codes "12")

-- An SDK that gathers the names of the attributes and lets every call fail with -1 or succeed.
abbrev pub names_sdk : Bool → Sdk
names_sdk good = record {
  Format = Bytes;
  format_init = λ h. [];
  format_add = λ f a. f ++ a.name;
  format_finalize = λ f. f;
  payload = λ f. f;
  result = λ log c. if good then pos 0 else pos 1;
}

abbrev snprintf : ℕ → Bytes → Bytes
snprintf size s = take (size - 1) s

length-snprintf : (size : ℕ) (s : Bytes) → 0 < size → length (snprintf size s) < size
length-snprintf size s h = omega (arith, length-take (size - 1) s)

length-digit : (size : ℕ) (w : ℕ) → 0 < size → length (snprintf size (codes "7")) < size
length-digit size w h = length-snprintf size (codes "7") h

-- A stand-in for HAL_Snprintf: "%s" cuts the text, and "%d" prints 7.
abbrev pub demo_hal : Hal
unfolding length-snprintf length-digit
demo_hal = record {
  print_int32 = λ size w. snprintf size (codes "7");
  print_string = snprintf;
  length-print_int32 = length-digit;
  length-print_string = length-snprintf;
}

abbrev pub all_memory : Alloc
all_memory = record { gives_attr = true; gives_name = true; gives_data = true }

abbrev pub temp_entry : DsAttr
temp_entry = record {
  report = false;
  is_local = false;
  attr = record {
    name = temp;
    mem = some (7 ∷ 0 ∷ 0 ∷ 0 ∷ []);
    attr_type = int32;
    callback = default_property;
  };
}

abbrev pub label_entry : DsAttr
label_entry = record {
  report = true;
  is_local = false;
  attr = record {
    name = label;
    mem = some (codes "hello" ++ 0 ∷ 0 ∷ 0 ∷ 0 ∷ 0 ∷ []);
    attr_type = string;
    callback = default_property;
  };
}

abbrev pub demo_shadow : Shadow
demo_shadow = record {
  service = demo;
  attrs = (label, label_entry) ∷ (temp, temp_entry) ∷ [];
  report_flag = true;
  force_report = false;
  shadow = 9;
  report_period = 20000;
  calls = [];
}
