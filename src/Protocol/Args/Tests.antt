-- ===== src/Protocol/Args/Tests.antt =====
-- A page of an inventory.
use gaze_lens.Prelude.{◌≡◌, refl, codes, some, ok}
use gaze_lens.Protocol.Checks.{Accepts}
use gaze_lens.Protocol.Args.{Args, inspect, packages, validate}
use gaze_lens.Protocol.Args.Bounded.{IsBounded, IsBounded-validate}

abbrev second_page : Args
second_page =
    inspect
      (record { view = packages; collector = codes "dpkg-main"; limit = 500; offset = some 500 })

IsBounded-validate_example : Accepts (validate second_page) (IsBounded second_page)
IsBounded-validate_example = IsBounded-validate second_page

second_page_accepted : validate second_page ≡ ok tt
unfolding validate
second_page_accepted = refl
