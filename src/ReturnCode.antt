-- ===== src/ReturnCode.antt =====
-- `ReturnCode` of rtps_test_utilities.py, and what a check function hands back.
use dds_rtps.Prelude.{
  ℕ, ==_iff, Bool, Text, ap, codes, if◌then◌else◌, refl, sym, true, ◌==◌, ◌↔◌, ◌∙◌, ◌≡◌,
}

pub data ReturnCode : Type 0 where
  ok topic_not_created reader_not_created writer_not_created filter_not_created : ReturnCode
  incompatible_qos reader_not_matched data_not_received data_not_sent : ReturnCode
  data_not_correct receiving_from_one receiving_from_both deadline_missed : ReturnCode
  ordered_access_instance ordered_access_topic : ReturnCode
  pub_unsupported_feature sub_unsupported_feature : ReturnCode

abbrev pub value : ReturnCode → ℕ
value ok = 0
value topic_not_created = 1
value reader_not_created = 2
value writer_not_created = 3
value filter_not_created = 4
value incompatible_qos = 5
value reader_not_matched = 6
value data_not_received = 9
value data_not_sent = 10
value data_not_correct = 11
value receiving_from_one = 12
value receiving_from_both = 13
value deadline_missed = 14
value ordered_access_instance = 15
value ordered_access_topic = 16
value pub_unsupported_feature = 17
value sub_unsupported_feature = 18

-- The name of a member.
abbrev pub name : ReturnCode → Text
name ok = codes "OK"
name topic_not_created = codes "TOPIC_NOT_CREATED"
name reader_not_created = codes "READER_NOT_CREATED"
name writer_not_created = codes "WRITER_NOT_CREATED"
name filter_not_created = codes "FILTER_NOT_CREATED"
name incompatible_qos = codes "INCOMPATIBLE_QOS"
name reader_not_matched = codes "READER_NOT_MATCHED"
name data_not_received = codes "DATA_NOT_RECEIVED"
name data_not_sent = codes "DATA_NOT_SENT"
name data_not_correct = codes "DATA_NOT_CORRECT"
name receiving_from_one = codes "RECEIVING_FROM_ONE"
name receiving_from_both = codes "RECEIVING_FROM_BOTH"
name deadline_missed = codes "DEADLINE_MISSED"
name ordered_access_instance = codes "ORDERED_ACCESS_INSTANCE"
name ordered_access_topic = codes "ORDERED_ACCESS_TOPIC"
name pub_unsupported_feature = codes "PUB_UNSUPPORTED_FEATURE"
name sub_unsupported_feature = codes "SUB_UNSUPPORTED_FEATURE"

-- `==` of two members of the enumeration
unfoldable pub same_code : ReturnCode → ReturnCode → Bool
same_code a b = value a == value b

-- The member with a given value.
decode : ℕ → ReturnCode
decode n =
    if n == 0
    then ok
    else if n == 1
    then topic_not_created
    else if n == 2
    then reader_not_created
    else if n == 3
    then writer_not_created
    else if n == 4
    then filter_not_created
    else if n == 5
    then incompatible_qos
    else if n == 6
    then reader_not_matched
    else if n == 9
    then data_not_received
    else if n == 10
    then data_not_sent
    else if n == 11
    then data_not_correct
    else if n == 12
    then receiving_from_one
    else if n == 13
    then receiving_from_both
    else if n == 14
    then deadline_missed
    else if n == 15
    then ordered_access_instance
    else if n == 16
    then ordered_access_topic
    else if n == 17
    then pub_unsupported_feature
    else sub_unsupported_feature

decode-value : (c : ReturnCode) → decode (value c) ≡ c
unfolding decode
decode-value ok = refl
decode-value topic_not_created = refl
decode-value reader_not_created = refl
decode-value writer_not_created = refl
decode-value filter_not_created = refl
decode-value incompatible_qos = refl
decode-value reader_not_matched = refl
decode-value data_not_received = refl
decode-value data_not_sent = refl
decode-value data_not_correct = refl
decode-value receiving_from_one = refl
decode-value receiving_from_both = refl
decode-value deadline_missed = refl
decode-value ordered_access_instance = refl
decode-value ordered_access_topic = refl
decode-value pub_unsupported_feature = refl
decode-value sub_unsupported_feature = refl

pub same_code_iff : (a b : ReturnCode) → (same_code a b ≡ true) ↔ (a ≡ b)
unfolding same_code
same_code_iff a b = (
  λ h. sym (decode-value a) ∙ ap decode ((==_iff _ _).0 h) ∙ decode-value b,
  λ e. (==_iff _ _).1 (ap value e),
)
