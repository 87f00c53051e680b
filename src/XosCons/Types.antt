-- ===== src/XosCons/Types.antt =====
-- config/setup/os_lib-tmplt.c: the comment with the types of AWS.OS_Lib, which the tool copies into the
-- package as its conditions have it.
use aws.Base.{String, List, [], ◌∷◌, map, Text, codes}
use aws.XosCons.Branches.{Block, finished, plain, branch, branch_else}

abbrev pub general_types : List String
general_types =
    "" ∷ "   --  Some types" ∷ "" ∷ "   type nfds_t is mod 2 ** SIZEOF_nfds_t;"
    ∷ "   for nfds_t'Size use SIZEOF_nfds_t;" ∷ "" ∷ "   type FD_Type"
    ∷ "     is range -(2 ** (SIZEOF_fd_type - 1)) .. 2 ** (SIZEOF_fd_type - 1) - 1;"
    ∷ "   for FD_Type'Size use SIZEOF_fd_type;" ∷ ""
    ∷ "   type Events_Type is mod 2 ** SIZEOF_pollfd_events;"
    ∷ "   for Events_Type'Size use SIZEOF_pollfd_events;" ∷ ""
    ∷ "   type socklen_t is mod 2 ** SIZEOF_socklen_t;"
    ∷ "   for socklen_t'Size use SIZEOF_socklen_t;" ∷ "" ∷ "   type timeval_tv_sec_t"
    ∷ "     is range -(2 ** (SIZEOF_tv_sec - 1)) .. 2 ** (SIZEOF_tv_sec - 1) - 1;"
    ∷ "   for timeval_tv_sec_t'Size use SIZEOF_tv_sec;" ∷ "" ∷ "   type timeval_tv_usec_t"
    ∷ "     is range -(2 ** (SIZEOF_tv_usec - 1)) .. 2 ** (SIZEOF_tv_usec - 1) - 1;"
    ∷ "   for timeval_tv_usec_t'Size use SIZEOF_tv_usec;" ∷ "" ∷ "   type Timeval is record"
    ∷ "      tv_sec  : timeval_tv_sec_t;  -- Seconds"
    ∷ "      tv_usec : timeval_tv_usec_t; -- Microseconds" ∷ "   end record;"
    ∷ "   pragma Convention (C, Timeval);" ∷ ""
    ∷ "   type sa_family_t is mod 2 ** SIZEOF_sin_family;"
    ∷ "   for sa_family_t'Size use SIZEOF_sin_family;" ∷ []

abbrev pub in6_head : List String
in6_head =
    "" ∷ "   type In6_Addr is array (1 .. 8) of Interfaces.Unsigned_16;"
    ∷ "   pragma Convention (C, In6_Addr);" ∷ "" ∷ "   type Sockaddr_In6 is record" ∷ []

abbrev pub in6_length : List String
in6_length = "      Length   : Interfaces.Unsigned_8 := 0;" ∷ []

abbrev pub in6_unexpected : List String
in6_unexpected = "      Unexpected sockaddr_in6 field family offset." ∷ []

abbrev pub in6_tail : List String
in6_tail =
    "      Family   : sa_family_t := 0;" ∷ "      Port     : Interfaces.C.unsigned_short := 0;"
    ∷ "      FlowInfo : Interfaces.Unsigned_32 := 0;"
    ∷ "      Addr     : In6_Addr := [others => 0];"
    ∷ "      Scope_Id : Interfaces.Unsigned_32 := 0;" ∷ "   end record;"
    ∷ "   pragma Convention (C, Sockaddr_In6);" ∷ []

abbrev pub addr_info_head : List String
addr_info_head =
    "" ∷ "   type Addr_Info;" ∷ "   type Addr_Info_Access is access all Addr_Info;" ∷ ""
    ∷ "   type Addr_Info is record" ∷ "      ai_flags     : C.int;" ∷ "      ai_family    : C.int;"
    ∷ "      ai_socktype  : C.int;" ∷ "      ai_protocol  : C.int;"
    ∷ "      ai_addrlen   : socklen_t;" ∷ []

abbrev pub canonname_field : List String
canonname_field = "      ai_canonname : C.Strings.chars_ptr;" ∷ []

abbrev pub addr_field : List String
addr_field = "      ai_addr      : System.Address;" ∷ []

abbrev pub addr_info_tail : List String
addr_info_tail =
    "      ai_next      : Addr_Info_Access;" ∷ "   end record;"
    ∷ "   pragma Convention (C, Addr_Info);" ∷ []

abbrev pub plain_lines : List Text → Block → Block
plain_lines [] b = b
plain_lines (l ∷ ls) b = plain l (plain_lines ls b)

abbrev pub plain_texts : List String → Block → Block
plain_texts ls b = plain_lines (map codes ls) b

abbrev pub in6_fields : Block
in6_fields =
    branch_else (codes "@IF SIN_FAMILY_OFFSET = 1") (plain_texts in6_length finished)
      (branch (codes "@IF SIN_FAMILY_OFFSET /= 0") (plain_texts in6_unexpected finished) finished)
      (plain_texts in6_tail finished)

-- type Sockaddr_In6
unfoldable pub in6_block : Block
in6_block = plain_texts in6_head in6_fields

abbrev pub addr_info_fields : Block
addr_info_fields =
    branch_else (codes "@IF AI_CANONNAME_OFFSET < AI_ADDR_OFFSET")
      (plain_texts canonname_field (plain_texts addr_field finished))
      (plain_texts addr_field (plain_texts canonname_field finished))
      (plain_texts addr_info_tail finished)

-- type Addr_Info, and the lines before it
unfoldable pub addr_info_block : Block
addr_info_block = plain_texts addr_info_head addr_info_fields

-- The comment "Some types".
unfoldable pub types_block : Block
types_block =
    plain_texts general_types (branch (codes "@IF AI_FAMILY_OFFSET > 0") in6_block addr_info_block)
