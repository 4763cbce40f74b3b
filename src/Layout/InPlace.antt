-- ===== src/Layout/InPlace.antt =====
-- include/plug.h and include/pm_dom.h: the daemon's reads of the four pages, against the structs.
use ops_pmd.Base.{refl}
use ops_pmd.Layout.{size_of, place_of}
use ops_pmd.Layout.SfpId.{pm_sfp_serial_id_t}
use ops_pmd.Layout.QsfpId.{pm_qsfp_serial_id_t}
use ops_pmd.Layout.SfpDom.{pm_sfp_dom_t}
use ops_pmd.Layout.QsfpDom.{pm_qsfp_dom_t}
use ops_pmd.Layout.Pages.{read_flag, read_byte, read_array, IsReadInPlace}
use ops_pmd.Layout.IdFields.{sfp_id_fields, qsfp_id_fields}
use ops_pmd.Layout.DomFields.{sfp_dom_fields, qsfp_dom_fields}

sfp_id_fields-IsReadInPlace : IsReadInPlace pm_sfp_serial_id_t sfp_id_fields
unfolding read_flag read_byte read_array size_of place_of
sfp_id_fields-IsReadInPlace = record {
  whole_page = refl;
  flags_in_place = refl;
  bytes_in_place = refl;
  arrays_in_place = refl;
  words_in_place = refl;
}

qsfp_id_fields-IsReadInPlace : IsReadInPlace pm_qsfp_serial_id_t qsfp_id_fields
unfolding read_flag read_byte read_array size_of place_of
qsfp_id_fields-IsReadInPlace = record {
  whole_page = refl;
  flags_in_place = refl;
  bytes_in_place = refl;
  arrays_in_place = refl;
  words_in_place = refl;
}

sfp_dom_fields-IsReadInPlace : IsReadInPlace pm_sfp_dom_t sfp_dom_fields
unfolding read_flag read_byte read_array size_of place_of
sfp_dom_fields-IsReadInPlace = record {
  whole_page = refl;
  flags_in_place = refl;
  bytes_in_place = refl;
  arrays_in_place = refl;
  words_in_place = refl;
}

qsfp_dom_fields-IsReadInPlace : IsReadInPlace pm_qsfp_dom_t qsfp_dom_fields
unfolding read_flag read_byte read_array size_of place_of
qsfp_dom_fields-IsReadInPlace = record {
  whole_page = refl;
  flags_in_place = refl;
  bytes_in_place = refl;
  arrays_in_place = refl;
  words_in_place = refl;
}

-- Each of the four structs of a page has 128 bytes. Where the compiler puts the members of the struct,
-- the tests of bits, the reads of bytes and the copies of arrays by which the daemon's use of the
-- member is modelled read that member, on every page, and the offset of a quantity is that of its
-- high byte, with the low byte behind it.
pub pages_in_place :
    IsReadInPlace pm_sfp_serial_id_t sfp_id_fields
    × IsReadInPlace pm_qsfp_serial_id_t qsfp_id_fields
    × IsReadInPlace pm_sfp_dom_t sfp_dom_fields
    × IsReadInPlace pm_qsfp_dom_t qsfp_dom_fields
pages_in_place = (
  sfp_id_fields-IsReadInPlace, qsfp_id_fields-IsReadInPlace, sfp_dom_fields-IsReadInPlace,
  qsfp_dom_fields-IsReadInPlace,
)
