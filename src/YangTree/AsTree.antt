-- ===== src/YangTree/AsTree.antt =====
-- internal/datastore and internal/yangtree together: the configuration tree as the datastore uses it.
use go_lab_netconf.Base.{true, Option, none, some, ◌≡◌}
use go_lab_netconf.Base.Int.{ℤ}
use go_lab_netconf.DomainErr.{AnyError}
use go_lab_netconf.Datastore.Yang.{ok, err, ◌>>=◌, Tree}
use go_lab_netconf.YangTree.Value.{Floats, mapping, end, clone}
use go_lab_netconf.YangTree.Value.Laws.{IsRegular, equal-clone_Regular}
use go_lab_netconf.YangTree.Path.{Unicode, parse_path}
use go_lab_netconf.YangTree.Schema.{Regexps, Check}
use go_lab_netconf.YangTree.Lists.{Sprint}
use go_lab_netconf.YangTree.Node.{Node, fields, is_zero, clone_node, equal_node, validate}
use go_lab_netconf.YangTree.Reads.{subtree}
use go_lab_netconf.YangTree.Edit.{Written, plain, apply}
use go_lab_netconf.YangTree.Diff.{diff}

abbrev error_of : Check → Option AnyError
error_of (ok r) = none
error_of (err e) = some e

module _ (F : Floats) (U : Unicode) (R : Regexps) (sprint : Sprint F) (uptime : ℤ) where
  pub equal_node-clone :
      (n : Node F R)
      → IsRegular F (mapping (fields F R n))
      → (equal_node F R n (clone_node F R n) ≡ true) × (equal_node F R (clone_node F R n) n ≡ true)
  unfolding equal_node clone
  equal_node-clone n p = equal-clone_Regular F (mapping (fields F R n)) p

  abbrev pub yang_tree : Tree
  yang_tree = record {
    Node = Node F R;
    Value = Written F sprint R uptime;
    is_zero = is_zero F R;
    clone = clone_node F R;
    equal = equal_node F R;
    subtree = λ path n. parse_path U path >>= λ p. ok (subtree F sprint R uptime n p);
    apply = apply F sprint R uptime U;
    empty_map = plain (mapping end);
    validate = λ n. error_of (validate F R n);
    diff = diff F sprint R;
    IsRegular = λ n. IsRegular F (mapping (fields F R n));
    equal-clone = λ n p. (equal_node-clone n p).0;
    equal-clone_left = λ n p. (equal_node-clone n p).1;
  }
